-- ===== src/Repository/Idempotency.antt =====
-- Idempotency keys: what a repeated claim of an operation returns.
use cultureshift.Base.{
  ℕ, String, Bool, true, false, ◌&&◌, List, [], ◌∷◌, Option, none, some, ◌≡◌, ◌≢◌, if◌then◌else◌,
  arith, ◌==◌, nat_eq, string_eq,
}
use cultureshift.Base.Result.{Result, ok, err}
use cultureshift.Domain.{Uuid, Datetime}
use cultureshift.Contracts.{is_given, RevisionChange, RevisionCompleted}
use cultureshift.Repository.State.{
  Database, RevisionRecord, OperationRecord, OperationKind, feedback, retry, in_progress, succeeded,
  failed_retryable, operation_kind_eq, operation_state_eq, idempotency_conflict,
  operation_in_progress, revision_limit_reached, RepositoryError,
}
use cultureshift.Repository.Operations.{
  claim_feedback_operation, claim_retry_operation, complete_revision, find_operation,
  update_operations, has_key, has_state, succeeded_operation,
}

-- Why a claim under a used key is refused.
abbrev Refused : String → OperationRecord → RepositoryError → Type 0
Refused fingerprint o idempotency_conflict = o.fingerprint ≢ fingerprint
Refused fingerprint o operation_in_progress = (o.fingerprint ≡ fingerprint) × (o.state ≢ succeeded)
Refused fingerprint o _ = ⊥

-- What a claim does when its key was used: it writes nothing, and returns the stored operation if
-- that succeeded under the same fingerprint.
abbrev pub Replays :
    String → OperationRecord → Database → Result RepositoryError OperationRecord × Database → Type 0
Replays fingerprint o db (ok p, db') =
    (p ≡ o) × (db' ≡ db) × (o.fingerprint ≡ fingerprint) × (o.state ≡ succeeded)
Replays fingerprint o db (err e, db') = (db' ≡ db) × Refused fingerprint o e

-- A feedback claim under a key that was used for the run writes nothing: it returns the stored
-- operation exactly as it is if that has the same fingerprint and has succeeded; it reports a
-- conflict only for another fingerprint, and that the operation is in progress only for the same
-- fingerprint without success.
pub claim_feedback_operation-Replays :
    (id : Uuid) (key fingerprint : String) (changes : List RevisionChange) (digest : String)
    (at : Datetime) (db : Database) {o : OperationRecord}
    → find_operation (has_key id feedback key) db.operations ≡ some o
    → Replays fingerprint o db (claim_feedback_operation id key fingerprint changes digest at db)
unfolding claim_feedback_operation
claim_feedback_operation-Replays id key fingerprint changes digest at db used = ground arith

-- A claim of a retry under a key that was used for the run writes nothing: it returns the stored
-- operation exactly as it is if that has the same fingerprint and has succeeded; it reports a
-- conflict only for another fingerprint, and that the operation is in progress only for the same
-- fingerprint without success.
pub claim_retry_operation-Replays :
    (id : Uuid) (key fingerprint : String) (at : Datetime) (db : Database) {o : OperationRecord}
    → find_operation (has_key id retry key) db.operations ≡ some o
    → Replays fingerprint o db (claim_retry_operation id key fingerprint at db)
unfolding claim_retry_operation
claim_retry_operation-Replays id key fingerprint at db used = ground arith

-- An operation after the completion of the one with an id.
abbrev completed : ℕ → RevisionCompleted → Datetime → OperationRecord → OperationRecord
completed id response at o =
    if o.id == id && o.state == in_progress then succeeded_operation response at o else o

find-completed :
    (run_id : Uuid) (kind : OperationKind) (key : String) (id : ℕ) (response : RevisionCompleted)
    (at : Datetime) (os : List OperationRecord) {o : OperationRecord}
    → find_operation (has_key run_id kind key) os ≡ some o
    → find_operation (has_key run_id kind key) (
        update_operations
          (λ o. o.id == id && o.state == in_progress)
          (succeeded_operation response at)
          os)
      ≡ some (completed id response at o)
find-completed run_id kind key id response at [] e = cc
find-completed run_id kind key id response at (x ∷ os) {o} e =
    ground (arith, find-completed run_id kind key id response at os {o = o})

-- A feedback operation that a completed retry settles.
abbrev settled : Uuid → RevisionCompleted → Datetime → OperationRecord → OperationRecord
settled run_id response at o =
    if has_state run_id feedback failed_retryable o then succeeded_operation response at o else o

find-settled :
    (run_id : Uuid) (kind : OperationKind) (key : String) (response : RevisionCompleted)
    (at : Datetime) (os : List OperationRecord) {o : OperationRecord}
    → find_operation (has_key run_id kind key) os ≡ some o
    → find_operation (has_key run_id kind key) (
        update_operations
          (has_state run_id feedback failed_retryable)
          (succeeded_operation response at)
          os)
      ≡ some (settled run_id response at o)
find-settled run_id kind key response at [] e = cc
find-settled run_id kind key response at (x ∷ os) {o} e =
    ground (arith, find-settled run_id kind key response at os {o = o})

-- The operations after a completion, by whether a retry was completed.
abbrev operations_after :
    Bool → Uuid → ℕ → RevisionCompleted → Datetime → List OperationRecord → List OperationRecord
operations_after is_retry run_id id response at os =
    let done =
      update_operations (λ o. o.id == id && o.state == in_progress)
        (succeeded_operation response at) os in
    if is_retry
    then update_operations (has_state run_id feedback failed_retryable)
        (succeeded_operation response at) done
    else done

abbrev is_retry_operation : Option OperationRecord → Bool
is_retry_operation none = false
is_retry_operation (some o) = o.kind == retry

complete_revision_operations :
    (run_id : Uuid) (id : ℕ) (revision : RevisionRecord) (response : RevisionCompleted)
    (db : Database) {v : RevisionRecord}
    → (complete_revision run_id id revision response db).0 ≡ ok v
    → ((complete_revision run_id id revision response db).1.operations
        ≡ operations_after
            (is_retry_operation
              (find_operation (λ o. o.id == id && o.run_id == run_id) db.operations))
            run_id
            id
            response
            revision.revised_at
            db.operations)
      × (is_given ((complete_revision run_id id revision response db).1.revisions run_id) ≡ true)
unfolding complete_revision
complete_revision_operations run_id id revision response db e = ground arith

module _ (run_id : Uuid) (id : ℕ) (revision : RevisionRecord) (response : RevisionCompleted)
    (db : Database) {v : RevisionRecord}
    (done : (complete_revision run_id id revision response db).0 ≡ ok v) (key fingerprint : String)
    (changes : List RevisionChange) (digest : String) (at : Datetime) where
  -- Once a feedback operation is completed, the same request under the same key returns it with the
  -- response that was stored, and writes nothing.
  pub complete_revision-replay :
      {o : OperationRecord}
      → find_operation (has_key run_id feedback key) db.operations ≡ some o
      → o.id ≡ id
      → o.state ≡ in_progress
      → o.fingerprint ≡ fingerprint
      → let after = (complete_revision run_id id revision response db).1 in
        claim_feedback_operation run_id key fingerprint changes digest at after
        ≡ (ok (succeeded_operation response revision.revised_at o), after)
  unfolding claim_feedback_operation operation_state_eq
  complete_revision-replay {o} found i s f = ground (
    arith,
    complete_revision_operations run_id id revision response db done,
    find-completed run_id feedback key id response revision.revised_at db.operations found,
    find-settled run_id feedback key response revision.revised_at
        (operations_after false run_id id response revision.revised_at db.operations)
        {o = succeeded_operation response revision.revised_at o},
  )

  -- Once a retry is completed, the request of the failed feedback operation that it retried returns
  -- that operation as succeeded, with the response of the retry, and writes nothing.
  pub complete_retry-replay :
      {o : OperationRecord} {r : OperationRecord}
      → find_operation (λ o. o.id == id && o.run_id == run_id) db.operations ≡ some r
      → r.kind ≡ retry
      → find_operation (has_key run_id feedback key) db.operations ≡ some o
      → o.run_id ≡ run_id
      → o.kind ≡ feedback
      → o.state ≡ failed_retryable
      → o.fingerprint ≡ fingerprint
      → let after = (complete_revision run_id id revision response db).1 in
        claim_feedback_operation run_id key fingerprint changes digest at after
        ≡ (ok (succeeded_operation response revision.revised_at o), after)
  unfolding claim_feedback_operation operation_state_eq
  complete_retry-replay {o} chosen k found j q s f = ground (
    arith,
    complete_revision_operations run_id id revision response db done,
    find-completed run_id feedback key id response revision.revised_at db.operations found,
    find-settled run_id feedback key response revision.revised_at
        (operations_after false run_id id response revision.revised_at db.operations) {o = o},
  )

  -- Once a revision is completed, feedback under a key that no operation of the run has is refused,
  -- since the run has its one revision, and nothing is written.
  pub complete_revision-limit :
      find_operation
          (has_key run_id feedback key)
          (complete_revision run_id id revision response db).1.operations
        ≡ none
      → let after = (complete_revision run_id id revision response db).1 in
        claim_feedback_operation run_id key fingerprint changes digest at after
        ≡ (err revision_limit_reached, after)
  unfolding claim_feedback_operation
  complete_revision-limit unused =
      ground (arith, complete_revision_operations run_id id revision response db done)
