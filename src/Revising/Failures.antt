-- ===== src/Revising/Failures.antt =====
-- What a failed revision leaves.
use cultureshift.Base.{
  ℕ, String, Bool, true, false, List, none, some, ◌≡◌, ◌≢◌, refl, ◌∙◌, arith, nat_eq, string_eq,
  if◌then◌else◌,
}
use cultureshift.Base.Result.{Result, ok, err}
use cultureshift.Domain
use cultureshift.Domain.{Uuid, Datetime, utc, ProjectRunStatus}
use cultureshift.Contracts.{is_given, FeedbackRequest, RevisionCompleted, RevisionChange}
use cultureshift.Workflow.{retry_action_eq}
use cultureshift.Repository.State.{
  Database, RepositoryError, OperationRecord, OperationState, RevisionRecord, RunRow, feedback,
  operation_kind_eq, operation_state_eq,
}
use cultureshift.Repository.State
use cultureshift.Repository.Operations.{
  claim_feedback_operation, fail_revision_operation, complete_revision, find_operation, has_key,
  has_state,
}
use cultureshift.Repository.Exclusive.{HasStatus}
use cultureshift.Repository.Exclusive.Counts.{is_chosen}
use cultureshift.Revising.{submit_feedback, is_idempotency_key}
use cultureshift.Revising.Session.{Failure, technical, ServiceError, Studio, Inputs, World, Session}
use cultureshift.Revising.Execution.{
  Prepared, prepare, complete_prepared, version_two, execute, recover,
}
use cultureshift.Revising.Steps.{prepare-Leaves}

-- A new claim while one is active.
claim_feedback_busy :
    (id : Uuid) (key fingerprint : String) (changes : List RevisionChange) (digest : String)
    (at : Datetime) (db : Database)
    → find_operation (has_key id feedback key) db.operations ≡ none
    → db.revisions id ≡ none
    → is_given (find_operation (has_state id feedback OperationState.in_progress) db.operations)
      ≡ true
    → claim_feedback_operation id key fingerprint changes digest at db
      ≡ (err State.operation_in_progress, db)
unfolding claim_feedback_operation
claim_feedback_busy id key fingerprint changes digest at db k r a = ground arith

abbrev is_refused : Result RepositoryError RevisionRecord → Bool
is_refused (ok v) = false
is_refused (err e) = true

-- A completion that is refused writes nothing.
complete_revision_refused :
    (id : Uuid) (operation_id : ℕ) (revision : RevisionRecord) (response : RevisionCompleted)
    (db : Database)
    → is_refused (complete_revision id operation_id revision response db).0 ≡ true
    → (complete_revision id operation_id revision response db).1 ≡ db
unfolding complete_revision
complete_revision_refused id operation_id revision response db r = ground arith

abbrev pub is_technical : Failure → Bool
is_technical technical = true
is_technical _ = false

module _ {Store : Type 0} (studio : Studio Store) (inputs : Inputs) where
  pub version_two_failed :
      (operation : OperationRecord) (s : Session Store) {e : Failure}
      → (version_two studio operation inputs s).0 ≡ err e
      → (version_two studio operation inputs s).1.world.database ≡ s.world.database
  unfolding version_two
  version_two_failed operation s {e} f =
      after (prepare studio operation inputs s).0 f ∙ prepare-Leaves studio inputs operation s
    where
      s' : Session Store
      s' = (prepare studio operation inputs s).1

      stored :
          (p : Prepared)
          → (complete_prepared operation p s').0 ≡ err e
          → (complete_prepared operation p s').1.world.database ≡ s'.world.database
      stored p f = ground (
        arith,
        f,
        complete_revision_refused p.run_id operation.id p.revision p.response s'.world.database,
      )

      after :
          (r : Result Failure Prepared)
          → (elim r as (λ _. Result Failure RevisionCompleted × Session Store) [
            | ok p ↦ complete_prepared operation p s'
            | err e ↦ (err e, s')
          ]).0
            ≡ err e
          → (elim r as (λ _. Result Failure RevisionCompleted × Session Store) [
            | ok p ↦ complete_prepared operation p s'
            | err e ↦ (err e, s')
          ]).1.world.database
            ≡ s'.world.database
      after (ok p) f = stored p f
      after (err e') f = refl

  -- A technical failure of an active operation, after which the stored image could be deleted, is
  -- reported as such: the run may be retried if this was the first attempt, and is finally failed if
  -- it was the retry.
  pub execute-technical :
      (operation : OperationRecord) (retrying : Bool) (w : World Store) {row : RunRow}
      → (version_two studio operation inputs (record { world = w; artifact_saved = false })).0
        ≡ err technical
      → (execute studio operation retrying inputs w).0 ≢ err ServiceError.uncaught
      → is_given (find_operation (is_chosen operation.run_id operation.id) w.database.operations)
        ≡ true
      → w.database.runs operation.run_id ≡ some row
      → ((execute studio operation retrying inputs w).0
          ≡ err (if retrying then ServiceError.retry_failed else ServiceError.revision_failed))
        × HasStatus
            ((execute studio operation retrying inputs w).1.database.runs operation.run_id)
            (if retrying then Domain.failed_final else Domain.failed_retryable)
  unfolding execute recover fail_revision_operation retry_action_eq
  execute-technical operation retrying w {row} f c chosen there = ground (
    arith,
    version_two_failed operation (record { world = w; artifact_saved = false }) {e = technical} f,
  )

  -- Any other failure leaves the database as it is.
  execute_failed :
      (operation : OperationRecord) (retrying : Bool) (w : World Store) {e : Failure}
      → (version_two studio operation inputs (record { world = w; artifact_saved = false })).0
        ≡ err e
      → is_technical e ≡ false
      → (execute studio operation retrying inputs w).1.database ≡ w.database
  unfolding execute recover
  execute_failed operation retrying w {e} f t =
      ground (
        arith,
        version_two_failed operation (record { world = w; artifact_saved = false }) {e = e} f,
      )

  -- A first attempt (`retrying` is false) that fails otherwise than technically, as by an exception
  -- that the service does not know, while a feedback operation of its run is active and the run has no
  -- revision, blocks the run: feedback on it right after, under a well-formed key that no feedback
  -- operation of the run has, is answered with operation_in_progress, and nothing is written.
  pub execute-stuck :
      (operation : OperationRecord) (w : World Store) {e : Failure} (request : FeedbackRequest)
      (key : String) (later : Inputs)
      → (version_two studio operation inputs (record { world = w; artifact_saved = false })).0
        ≡ err e
      → is_technical e ≡ false
      → is_given (
          find_operation
            (has_state operation.run_id feedback OperationState.in_progress)
            w.database.operations)
        ≡ true
      → w.database.revisions operation.run_id ≡ none
      → request.run_id ≡ operation.run_id
      → is_idempotency_key key ≡ true
      → find_operation (has_key operation.run_id feedback (studio.digest key)) w.database.operations
        ≡ none
      → let after = (execute studio operation false inputs w).1 in
        submit_feedback studio request key later after
        ≡ (err ServiceError.operation_in_progress, after)
  unfolding submit_feedback
  execute-stuck operation w {e} request key later f t active none_yet same k unused =
      let after = (execute studio operation false inputs w).1 in
      let kept = execute_failed operation false w {e = e} f t in
      ground (
        arith,
        same,
        k,
        active,
        none_yet,
        unused,
        kept,
        claim_feedback_busy request.run_id (studio.digest key) (studio.feedback_fingerprint request)
            request.requested_changes (studio.digest request.feedback) (utc later.claimed_at)
            after.database,
      )
