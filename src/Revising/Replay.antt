-- ===== src/Revising/Replay.antt =====
-- What a repeated request gets: the answer of the first.
use cultureshift.Base.{
  all, String, Bool, true, false, some, ◌≡◌, ◌⊎◌, refl, sym, arith, nat_eq, string_eq,
}
use cultureshift.Base.Result.{Result, ok, err}
use cultureshift.Domain.{utc}
use cultureshift.Contracts.{FeedbackRequest, RevisionCompleted}
use cultureshift.Repository.State.{
  Database, RepositoryError, OperationRecord, OperationState, feedback, operation_kind_eq,
  operation_state_eq,
}
use cultureshift.Repository.Operations.{claim_feedback_operation, find_operation, has_key}
use cultureshift.Revising.{answer_feedback, submit_feedback, is_idempotency_key}
use cultureshift.Revising.Session.{Studio, Inputs, World, Session, with_database}
use cultureshift.Revising.Execution.{version_two, execute, recover}
use cultureshift.Revising.Answers.{
  is_answered, claim_feedback_effect, claim_feedback_operation-found, find_operation-all,
  find_operation-key, Answers, version_two-Answers,
}

module _ {Store : Type 0} (studio : Studio Store) (inputs : Inputs) where
  execute-ok :
      (operation : OperationRecord) (retrying : Bool) (w : World Store)
      {response : RevisionCompleted}
      → (execute studio operation retrying inputs w).0 ≡ ok response
      → let done =
          version_two studio operation inputs (record { world = w; artifact_saved = false }) in
        (done.0 ≡ ok response) × ((execute studio operation retrying inputs w).1 ≡ done.1.world)
  unfolding execute recover
  execute-ok operation retrying w {response} e = ground arith

  claimed_ok :
      (w : World Store) (c : Result RepositoryError OperationRecord) {response : RevisionCompleted}
      → (answer_feedback studio inputs w c).0 ≡ ok response
      → (o : OperationRecord) × (c ≡ ok o)
  claimed_ok w (ok o) e = (o, refl)
  claimed_ok w (err f) e = cc

  -- The claim of a request for a run, under a key's digest.
  abbrev claim_of :
      FeedbackRequest
      → String
      → Inputs
      → Database
      → Result RepositoryError OperationRecord × Database
  claim_of request key at db =
      claim_feedback_operation request.run_id (studio.digest key)
        (studio.feedback_fingerprint request) request.requested_changes
        (studio.digest request.feedback) (utc at.claimed_at) db

  submit_feedback-Answers :
      (request : FeedbackRequest) (key : String) (later : Inputs) (w : World Store)
      {response : RevisionCompleted}
      → is_idempotency_key key ≡ true
      → Answers response w.database (claim_of request key later w.database)
      → submit_feedback studio request key later w ≡ (ok response, w)
  unfolding submit_feedback
  submit_feedback-Answers request key later w {response} k a = ground arith

  execute-Answers :
      (o : OperationRecord) (w : World Store) {response : RevisionCompleted}
      (request : FeedbackRequest) (key : String) (later : Inputs)
      → (execute studio o false inputs w).0 ≡ ok response
      → find_operation (has_key request.run_id feedback (studio.digest key)) w.database.operations
        ≡ some o
      → o.run_id ≡ request.run_id
      → o.state ≡ OperationState.in_progress
      → o.fingerprint ≡ studio.feedback_fingerprint request
      → Answers response
          (execute studio o false inputs w).1.database
          (claim_of request key later (execute studio o false inputs w).1.database)
  execute-Answers o w {response} request key later e found r st f =
      let s : Session Store = record { world = w; artifact_saved = false } in
      let (done, same) = execute-ok o false w e in
      let found' : find_operation (has_key o.run_id feedback (studio.digest key))
            w.database.operations
          ≡ some o =
        ground (arith, r, found) in
      let answered =
        version_two-Answers studio inputs o s (studio.digest key) request.requested_changes
          (studio.digest request.feedback) (utc later.claimed_at) done found' st in
      ground (arith, same, r, f, answered)

  -- The claim found an operation that had succeeded, or inserted this one.
  abbrev IsClaimed : FeedbackRequest → OperationRecord → Type 0
  IsClaimed request o =
      (o.run_id ≡ request.run_id)
      × (o.fingerprint ≡ studio.feedback_fingerprint request)
      × ((o.state ≡ OperationState.succeeded) ⊎ (o.state ≡ OperationState.in_progress))

  answer_feedback-Answers :
      (o : OperationRecord) (w : World Store) {response : RevisionCompleted}
      (request : FeedbackRequest) (key : String) (later : Inputs)
      → (answer_feedback studio inputs w (ok o)).0 ≡ ok response
      → find_operation (has_key request.run_id feedback (studio.digest key)) w.database.operations
        ≡ some o
      → IsClaimed request o
      → is_answered o ≡ true
      → Answers response
          (answer_feedback studio inputs w (ok o)).1.database
          (claim_of request key later (answer_feedback studio inputs w (ok o)).1.database)
  answer_feedback-Answers o w {response} request key later e found c a = ground (
    arith,
    c,
    execute-Answers o w {response = response} request key later,
    claim_feedback_operation-found request.run_id (studio.digest key)
        (studio.feedback_fingerprint request) request.requested_changes
        (studio.digest request.feedback) (utc later.claimed_at) w.database {o = o} found,
  )

  claim_of-IsClaimed :
      (request : FeedbackRequest) (key : String) (w : World Store) {o : OperationRecord}
      → all is_answered w.database.operations ≡ true
      → (claim_of request key inputs w.database).0 ≡ ok o
      → (find_operation
            (has_key request.run_id feedback (studio.digest key))
            (claim_of request key inputs w.database).1.operations
          ≡ some o)
        × IsClaimed request o
        × (is_answered o ≡ true)
  unfolding operation_state_eq
  claim_of-IsClaimed request key w {o} a given =
      let (found, how) =
        claim_feedback_effect request.run_id (studio.digest key)
          (studio.feedback_fingerprint request) request.requested_changes
          (studio.digest request.feedback) (utc inputs.claimed_at) w.database given in
      ground (
        arith,
        how,
        found,
        find_operation-all is_answered (has_key request.run_id feedback (studio.digest key))
            w.database.operations {o = o} a,
        find_operation-key request.run_id (studio.digest key)
            (claim_of request key inputs w.database).1.operations found,
      )

  submit_feedback-claimed :
      (request : FeedbackRequest) (key : String) (w : World Store) {o : OperationRecord}
      → is_idempotency_key key ≡ true
      → (claim_of request key inputs w.database).0 ≡ ok o
      → submit_feedback studio request key inputs w
        ≡ answer_feedback studio inputs
            (with_database (claim_of request key inputs w.database).1 w)
            (ok o)
  unfolding submit_feedback
  submit_feedback-claimed request key w {o} k given = rw (k, given) refl

  -- In a database whose operations have their responses once they have succeeded: a request that was
  -- answered with version two is answered with the same version two when it is made again under its
  -- key, at any later time, and nothing is drawn, stored or written again.
  pub submit_feedback-replay :
      (request : FeedbackRequest) (key : String) (w : World Store) {response : RevisionCompleted}
      → all is_answered w.database.operations ≡ true
      → (submit_feedback studio request key inputs w).0 ≡ ok response
      → (later : Inputs)
      → let after = (submit_feedback studio request key inputs w).1 in
        submit_feedback studio request key later after ≡ (ok response, after)
  unfolding submit_feedback operation_state_eq
  submit_feedback-replay request key w {response} a e later =
      let claimed = claim_of request key inputs w.database in
      let w' = with_database claimed.1 w in
      let (o, given) = claimed_ok w' claimed.0 {response = response} (ground (arith, e)) in
      let (found, claimed_now, answered) = claim_of-IsClaimed request key w a given in
      let key_ok : is_idempotency_key key ≡ true = ground (arith, e) in
      let same : submit_feedback studio request key inputs w
          ≡ answer_feedback studio inputs w' (ok o) =
        submit_feedback-claimed request key w {o = o} key_ok given in
      let told : (answer_feedback studio inputs w' (ok o)).0 ≡ ok response = rw (sym same) e in
      submit_feedback-Answers request key later (submit_feedback studio request key inputs w).1
        key_ok
        (rw (same) (answer_feedback-Answers o w' request key later told found claimed_now answered))
