-- ===== src/Revising/Undone.antt =====
-- What a failed request for a revision or a retry undoes.
use cultureshift.Base.{
  List, String, Bool, true, false, Option, none, some, ◌≡◌, ◌≢◌, inl, inr, arith, nat_eq, string_eq,
  if◌then◌else◌,
}
use cultureshift.Base.Result.{Result, ok, err}
use cultureshift.Domain.{Uuid, ProjectRun, utc}
use cultureshift.Contracts.{FeedbackRequest, RetryRequest, RevisionCompleted}
use cultureshift.Workflow.{RetryAction, RetryCondition, decide_retry}
use cultureshift.Repository.State.{Database, OperationRecord, RepositoryError}
use cultureshift.Repository.Reads.{get}
use cultureshift.Repository.Operations.{claim_feedback_operation, claim_retry_operation}
use cultureshift.Revising.{
  answer_feedback, submit_feedback, execute_decided, execute_retry, answer_retry, retry,
  stored_response, is_decided, before, is_idempotency_key,
}
use cultureshift.Revising.Session.{ServiceError, Studio, Inputs, World, with_database}
use cultureshift.Revising.Execution.{execute}
use cultureshift.Contracts.{RevisionChange}
use cultureshift.Domain.{Datetime}
use cultureshift.Revising.{claim_error}
use cultureshift.Revising.Images.{KeepsImages, other_attempt}
use cultureshift.Revising.Attempts.{Undone, kept, execute-Undone, rebased}

claim_feedback_operation-revisions :
    (id : Uuid) (key fingerprint : String) (changes : List RevisionChange) (digest : String)
    (at : Datetime) (db : Database)
    → (claim_feedback_operation id key fingerprint changes digest at db).1.revisions ≡ db.revisions
unfolding claim_feedback_operation
claim_feedback_operation-revisions id key fingerprint changes digest at db = ground arith

claim_retry_operation-revisions :
    (id : Uuid) (key fingerprint : String) (at : Datetime) (db : Database)
    → (claim_retry_operation id key fingerprint at db).1.revisions ≡ db.revisions
unfolding claim_retry_operation
claim_retry_operation-revisions id key fingerprint at db = ground arith

claim_error-attempt :
    (retrying : Bool) (e : RepositoryError) → claim_error e ≢ other_attempt retrying
claim_error-attempt true e = λ c. ground (arith, c)
claim_error-attempt false e = λ c. ground (arith, c)

module _ {Store : Type 0} (studio : Studio Store) (has : Uuid → Store → Bool)
    (law : KeepsImages studio has) (inputs : Inputs) (image : Uuid) where
  -- What holds of the answer to a request.
  abbrev IsUndone :
      Bool → World Store → Result ServiceError RevisionCompleted × World Store → Type 0
  IsUndone = Undone studio has law inputs image

  answer_feedback-Undone :
      (w : World Store) (c : Result RepositoryError OperationRecord)
      → has inputs.artifact_id w.store ≡ false
      → IsUndone false w (answer_feedback studio inputs w c)
  answer_feedback-Undone w (err e) new =
      kept studio has law inputs image false (claim_error e) w (claim_error-attempt false e)
  answer_feedback-Undone w (ok o) new = after (stored_response o)
    where
      after :
          (r : Option RevisionCompleted)
          → IsUndone false w (elim r as (λ _. Result ServiceError RevisionCompleted × World Store) [
            | some response ↦ (ok response, w)
            | none ↦ execute studio o false inputs w
          ])
      after (some response) = tt
      after none = execute-Undone studio has law inputs image o false w new

  execute_decided-Undone :
      (w : World Store) (o : OperationRecord) (d : Option Bool)
      → has inputs.artifact_id w.store ≡ false
      → IsUndone true w (execute_decided studio inputs w o d)
  execute_decided-Undone w o none new =
      kept studio has law inputs image true ServiceError.uncaught w (λ c. cc)
  execute_decided-Undone w o (some false) new =
      kept studio has law inputs image true ServiceError.invalid_run_state w (λ c. cc)
  execute_decided-Undone w o (some true) new =
      execute-Undone studio has law inputs image o true w new

  execute_retry-Undone :
      (id : Uuid) (w : World Store) (o : OperationRecord) (condition : Option RetryCondition)
      (action : Option RetryAction)
      → has inputs.artifact_id w.store ≡ false
      → IsUndone true w (execute_retry studio id inputs w o condition action)
  execute_retry-Undone id w o none action new =
      kept studio has law inputs image true ServiceError.invalid_run_state w (λ c. cc)
  execute_retry-Undone id w o (some c) none new =
      kept studio has law inputs image true ServiceError.invalid_run_state w (λ c. cc)
  execute_retry-Undone id w o (some c) (some a) new = after (get id w.database).0
    where
      after :
          (r : Result RepositoryError ProjectRun)
          → IsUndone true w (elim r as (λ _. Result ServiceError RevisionCompleted × World Store) [
            | err e ↦ (err ServiceError.uncaught, w)
            | ok run ↦
                execute_decided studio inputs w o
                  (is_decided a (decide_retry c (before run.technical_attempt_count) none))
          ])
      after (err e) = kept studio has law inputs image true ServiceError.uncaught w (λ c. cc)
      after (ok run) =
          execute_decided-Undone w o
            (is_decided a (decide_retry c (before run.technical_attempt_count) none)) new

  answer_retry-Undone :
      (id : Uuid) (w : World Store) (c : Result RepositoryError OperationRecord)
      → has inputs.artifact_id w.store ≡ false
      → IsUndone true w (answer_retry studio id inputs w c)
  answer_retry-Undone id w (err e) new =
      kept studio has law inputs image true (claim_error e) w (claim_error-attempt true e)
  answer_retry-Undone id w (ok o) new = after (stored_response o)
    where
      after :
          (r : Option RevisionCompleted)
          → IsUndone true w (elim r as (λ _. Result ServiceError RevisionCompleted × World Store) [
            | some response ↦ (ok response, w)
            | none ↦ execute_retry studio id inputs w o o.retry_condition o.retry_action
          ])
      after (some response) = tt
      after none = execute_retry-Undone id w o o.retry_condition o.retry_action new

  submitted :
      (request : FeedbackRequest) (key : String) (w : World Store)
      → has inputs.artifact_id w.store ≡ false
      → IsUndone false w (submit_feedback studio request key inputs w)
  unfolding submit_feedback
  submitted request key w new = after (is_idempotency_key key)
    where
      claimed : Result RepositoryError OperationRecord × Database
      claimed =
          claim_feedback_operation request.run_id (studio.digest key)
            (studio.feedback_fingerprint request) request.requested_changes
            (studio.digest request.feedback) (utc inputs.claimed_at) w.database

      after :
          (b : Bool)
          → IsUndone false w (
              if b
              then answer_feedback studio inputs (with_database claimed.1 w) claimed.0
              else (err ServiceError.invalid_revision_request, w))
      after false =
          kept studio has law inputs image false ServiceError.invalid_revision_request w (λ c. cc)
      after true =
          rebased studio has law inputs image false claimed.1 w
            (answer_feedback studio inputs (with_database claimed.1 w) claimed.0)
            (claim_feedback_operation-revisions request.run_id (studio.digest key)
              (studio.feedback_fingerprint request) request.requested_changes
              (studio.digest request.feedback) (utc inputs.claimed_at) w.database)
            (answer_feedback-Undone (with_database claimed.1 w) claimed.0 new)

  retried :
      (request : RetryRequest) (key : String) (w : World Store)
      → has inputs.artifact_id w.store ≡ false
      → IsUndone true w (retry studio request key inputs w)
  unfolding retry
  retried request key w new = after (is_idempotency_key key)
    where
      claimed : Result RepositoryError OperationRecord × Database
      claimed =
          claim_retry_operation request.run_id (studio.digest key)
            (studio.retry_fingerprint request) (utc inputs.claimed_at) w.database

      after :
          (b : Bool)
          → IsUndone true w (
              if b
              then answer_retry studio request.run_id inputs (with_database claimed.1 w) claimed.0
              else (err ServiceError.invalid_revision_request, w))
      after false =
          kept studio has law inputs image true ServiceError.invalid_revision_request w (λ c. cc)
      after true =
          rebased studio has law inputs image true claimed.1 w
            (answer_retry studio request.run_id inputs (with_database claimed.1 w) claimed.0)
            (claim_retry_operation-revisions request.run_id (studio.digest key)
              (studio.retry_fingerprint request) (utc inputs.claimed_at) w.database)
            (answer_retry-Undone request.run_id (with_database claimed.1 w) claimed.0 new)

  settled :
      (retrying : Bool) (w : World Store) (r : Result ServiceError RevisionCompleted × World Store)
      {e : ServiceError}
      → IsUndone retrying w r
      → r.0 ≡ err e
      → e ≢ ServiceError.uncaught
      → (has image r.1.store ≡ has image w.store)
        × (r.1.database.revisions ≡ w.database.revisions)
        × (e ≢ other_attempt retrying)
  settled retrying w (ok x, w') {e} u f c = cc
  settled retrying w (err x, w') {e} (inl escaped) f c = ground (arith, escaped, f, c)
  settled retrying w (err x, w') {e} (inr (images, revisions, other)) f c =
      (images, revisions, λ d. other (ground (arith, f, d)))

  -- Feedback that is answered with an error code leaves no trace of a second version: no new
  -- revision is in the database, and every image is there, or not, as before; and the code is not
  -- that of a failed retry. It is supposed that a save that raises leaves no image, that a deletion
  -- that returns removes the image, that neither touches other images, that the request's new
  -- identifier was unused, and that the answer is the service's own and not an exception that escapes
  -- it, as when the deletion raises.
  pub submit_feedback-Undone :
      (request : FeedbackRequest) (key : String) (w : World Store) {e : ServiceError}
      → has inputs.artifact_id w.store ≡ false
      → (submit_feedback studio request key inputs w).0 ≡ err e
      → e ≢ ServiceError.uncaught
      → let after = (submit_feedback studio request key inputs w).1 in
        (has image after.store ≡ has image w.store)
        × (after.database.revisions ≡ w.database.revisions)
        × (e ≢ ServiceError.retry_failed)
  submit_feedback-Undone request key w {e} new f c =
      settled false w (submit_feedback studio request key inputs w) {e = e}
        (submitted request key w new) f c

  -- A retry that is answered with an error code leaves no trace of a second version either: no new
  -- revision is in the database, and every image is there, or not, as before; and the code is not
  -- that of a failed first attempt. It is supposed that a save that raises leaves no image, that a
  -- deletion that returns removes the image, that neither touches other images, that the request's
  -- new identifier was unused, and that the answer is the service's own and not an exception that
  -- escapes it.
  pub retry-Undone :
      (request : RetryRequest) (key : String) (w : World Store) {e : ServiceError}
      → has inputs.artifact_id w.store ≡ false
      → (retry studio request key inputs w).0 ≡ err e
      → e ≢ ServiceError.uncaught
      → let after = (retry studio request key inputs w).1 in
        (has image after.store ≡ has image w.store)
        × (after.database.revisions ≡ w.database.revisions)
        × (e ≢ ServiceError.revision_failed)
  retry-Undone request key w {e} new f c =
      settled true w (retry studio request key inputs w) {e = e} (retried request key w new) f c
