-- ===== src/Workflow/Decisions.antt =====
-- What `decide_retry` allows.
use cultureshift.Base.{String, Option, ◌≡◌, ◌⊎◌, ◌↔◌, arith}
use cultureshift.Base.Int.{ℤ, pos, negsuc}
use cultureshift.Base.Result.{ok}
use cultureshift.Domain.{in_progress, failed_final}
use cultureshift.Workflow.{
  RetryCondition, RetryAction, RetryDecision, decide_retry, retry_once, repair_once,
  recompose_same_layers_once, poll_existing, do_not_retry, connection_before_acceptance,
  brand_lock_failure, invalid_schema,
}

-- The decision makes a new attempt.
abbrev pub IsNewAttempt : RetryAction → Type 0
IsNewAttempt retry_once = Unit
IsNewAttempt repair_once = Unit
IsNewAttempt recompose_same_layers_once = Unit
IsNewAttempt _ = ⊥

-- A new attempt is decided only if none was made before, and only after a failed connection, a
-- failure of the Brand Lock or an invalid schema. Nothing is attempted anew while a provider may
-- have accepted a call, after a refusal for safety, or for an ambiguity.
pub decide_retry-once :
    (condition : RetryCondition) (attempts : ℤ) (call_id : Option String) {d : RetryDecision}
    → decide_retry condition attempts call_id ≡ ok d
    → IsNewAttempt d.action
    → (attempts ≡ pos 0)
      × (d.next_status ≡ in_progress)
      × ((condition ≡ connection_before_acceptance)
          ⊎ (condition ≡ brand_lock_failure)
          ⊎ (condition ≡ invalid_schema))
unfolding decide_retry
decide_retry-once condition (pos n) call_id {d} e new = ground arith
decide_retry-once condition (negsuc n) call_id e new = ground arith

-- The decision leaves a run in progress exactly if it polls or makes a new attempt, and one that
-- does not retry ends the run.
pub decide_retry-status :
    (condition : RetryCondition) (attempts : ℤ) (call_id : Option String) {d : RetryDecision}
    → decide_retry condition attempts call_id ≡ ok d
    → ((d.next_status ≡ in_progress) ↔ ((d.action ≡ poll_existing) ⊎ IsNewAttempt d.action))
      × ((d.next_status ≡ failed_final) ↔ (d.action ≡ do_not_retry))
unfolding decide_retry
decide_retry-status condition attempts call_id {d} e = ground arith
