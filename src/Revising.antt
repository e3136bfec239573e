-- ===== src/Revising.antt =====
-- cultureshift/revision_service.py: the one revision of a reviewed run on feedback, and its retry.
-- What the service is built with (providers, the drawing, the store of images, the digests) is a
-- record of operations.
pub mod Session
pub mod Composing
pub mod Execution
pub mod Steps
pub mod Answers
pub mod Replay
pub mod Failures
pub mod Effects
pub mod Images
pub mod Attempts
pub mod Undone
use cultureshift.Base.{
  ℕ, zero, suc, nat_eq, ◌+◌, String, Bool, true, false, not, ◌&&◌, ◌||◌, ◌==◌, ◌!=◌, Option, none,
  some, leb, length, all, codes, is_lower, is_upper, is_digit, if◌then◌else◌,
}
use cultureshift.Base.Int.{ℤ, pos, negsuc}
use cultureshift.Base.Result.{Result, ok, err}
use cultureshift.Domain.{Uuid, utc}
use cultureshift.Contracts.{FeedbackRequest, RetryRequest, RevisionCompleted, UtcDatetime}
use cultureshift.Workflow.{
  RetryAction, RetryCondition, RetryError, RetryDecision, retry_action_eq, decide_retry,
}
use cultureshift.Repository.State.{
  RepositoryError, OperationRecord, OperationState, operation_state_eq,
}
use cultureshift.Repository.State
use cultureshift.Repository.Operations.{
  claim_feedback_operation, claim_retry_operation, is_retryable,
}
use cultureshift.Repository.Reads.{get}
use cultureshift.Revising.Session.{
  ServiceError, Studio, World, Inputs, map_repository_error, with_database,
}
use cultureshift.Revising.Execution.{execute}

-- `_IDEMPOTENCY_KEY`
unfoldable pub is_idempotency_key : String → Bool
is_idempotency_key key =
    leb 16 (length (codes key))
    && leb (length (codes key)) 128
    && all (λ c. is_lower c || is_upper c || is_digit c || c == b'_' || c == b'-') (codes key)

abbrev pub before : ℕ → ℤ
before zero = negsuc 0
before (suc n) = pos n

-- The exceptions that a claim raises, and those that the service maps.
abbrev pub claim_error : RepositoryError → ServiceError
claim_error State.value_error = ServiceError.uncaught
claim_error State.duplicate_run = ServiceError.uncaught
claim_error State.brand_lock_immutable = ServiceError.uncaught
claim_error State.draft_immutable = ServiceError.uncaught
claim_error State.composition_immutable = ServiceError.uncaught
claim_error State.critique_immutable = ServiceError.uncaught
claim_error (State.confirmation_refused c) = ServiceError.uncaught
claim_error e = map_repository_error e

-- `operation.state is OperationState.SUCCEEDED and operation.public_response`
abbrev pub stored_response : OperationRecord → Option RevisionCompleted
stored_response o = if o.state == OperationState.succeeded then o.public_response else none

-- The decision agrees with the operation's action, and makes a new attempt.
abbrev is_decided : RetryAction → Result RetryError RetryDecision → Option Bool
is_decided action (err e) = none
is_decided action (ok d) = some (d.action == action && is_retryable d.action)

module _ {Store : Type 0} (studio : Studio Store) where
  abbrev answer_feedback :
      Inputs
      → World Store
      → Result RepositoryError OperationRecord
      → Result ServiceError RevisionCompleted × World Store
  answer_feedback inputs w (err e) = (err (claim_error e), w)
  answer_feedback inputs w (ok operation) = elim (stored_response operation) [
    | some response ↦ (ok response, w)
    | none ↦ execute studio operation false inputs w
  ]

  -- `submit_feedback`
  unfoldable pub submit_feedback :
      FeedbackRequest
      → String
      → Inputs
      → World Store
      → Result ServiceError RevisionCompleted × World Store
  submit_feedback request key inputs w =
      let (claimed, db) =
        claim_feedback_operation request.run_id (studio.digest key)
          (studio.feedback_fingerprint request) request.requested_changes
          (studio.digest request.feedback) (utc inputs.claimed_at) w.database in
      if is_idempotency_key key
      then answer_feedback inputs (with_database db w) claimed
      else (err ServiceError.invalid_revision_request, w)

  abbrev execute_decided :
      Inputs
      → World Store
      → OperationRecord
      → Option Bool
      → Result ServiceError RevisionCompleted × World Store
  execute_decided inputs w operation none = (err ServiceError.uncaught, w)
  execute_decided inputs w operation (some false) = (err ServiceError.invalid_run_state, w)
  execute_decided inputs w operation (some true) = execute studio operation true inputs w

  -- A retry that was claimed: its condition and action, and the run's count of attempts, decide.
  abbrev execute_retry :
      Uuid
      → Inputs
      → World Store
      → OperationRecord
      → Option RetryCondition
      → Option RetryAction
      → Result ServiceError RevisionCompleted × World Store
  execute_retry run_id inputs w operation (some condition) (some action) =
      elim (get run_id w.database).0 [
        | err e ↦ (err ServiceError.uncaught, w)
        | ok run ↦
            execute_decided inputs w operation
              (is_decided action (decide_retry condition (before run.technical_attempt_count) none))
      ]
  execute_retry run_id inputs w operation _ _ = (err ServiceError.invalid_run_state, w)

  abbrev answer_retry :
      Uuid
      → Inputs
      → World Store
      → Result RepositoryError OperationRecord
      → Result ServiceError RevisionCompleted × World Store
  answer_retry run_id inputs w (err e) = (err (claim_error e), w)
  answer_retry run_id inputs w (ok operation) = elim (stored_response operation) [
    | some response ↦ (ok response, w)
    | none ↦
        execute_retry run_id inputs w operation operation.retry_condition operation.retry_action
  ]

  -- `retry`
  unfoldable pub retry :
      RetryRequest
      → String
      → Inputs
      → World Store
      → Result ServiceError RevisionCompleted × World Store
  retry request key inputs w =
      let (claimed, db) =
        claim_retry_operation request.run_id (studio.digest key) (studio.retry_fingerprint request)
          (utc inputs.claimed_at) w.database in
      if is_idempotency_key key
      then answer_retry request.run_id inputs (with_database db w) claimed
      else (err ServiceError.invalid_revision_request, w)
