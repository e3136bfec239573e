-- ===== src/Workflow.antt =====
-- cultureshift/workflow.py: what follows a failed call of a provider.
pub mod Decisions
use cultureshift.Base.{
  String, Bool, true, ◌||◌, Option, none, some, Eq, ◌==◌, nat_eq, ltb, text_length, if◌then◌else◌,
}
use cultureshift.Base.Result.{Result, ok, err}
use cultureshift.Base.Int.{ℤ, pos, ltb_ℤ, leb_ℤ}
use cultureshift.Domain.{ProjectRunStatus, in_progress, failed_final, failed_retryable, ready}

pub data RetryCondition : Type 0 where
  connection_before_acceptance accepted_with_call_id acceptance_unknown : RetryCondition
  invalid_schema safety_refusal brand_lock_failure cultural_ambiguity : RetryCondition

pub data RetryAction : Type 0 where
  retry_once poll_existing require_explicit_acknowledgement repair_once : RetryAction
  do_not_retry recompose_same_layers_once require_human_review : RetryAction

unfoldable pub RetryAction-discrete : Discrete RetryAction
RetryAction-discrete = hlevel

instance unfoldable pub retry_action_eq : Eq RetryAction
unfolding RetryAction-discrete
retry_action_eq = record { dec = RetryAction-discrete }

pub record RetryDecision : Type 0 where
  pub action : RetryAction
  pub next_status : ProjectRunStatus

-- The two `ValueError`s.
pub data RetryError : Type 0 where
  negative_attempts call_id_required : RetryError

-- `not provider_call_id or len(provider_call_id) > 128`
abbrev bad_call_id : Option String → Bool
bad_call_id none = true
bad_call_id (some s) = text_length s == 0 || ltb 128 (text_length s)

abbrev poll : Option String → Result RetryError RetryDecision
poll call_id =
    if bad_call_id call_id
    then err call_id_required
    else ok (record { action = poll_existing; next_status = in_progress })

-- One more attempt of a kind, if none was made.
abbrev once : RetryAction → ℤ → Result RetryError RetryDecision
once action attempts =
    if leb_ℤ (pos 1) attempts
    then ok (record { action = do_not_retry; next_status = failed_final })
    else ok (record { action = action; next_status = in_progress })

abbrev decide : RetryCondition → ℤ → Option String → Result RetryError RetryDecision
decide accepted_with_call_id attempts call_id = poll call_id
decide connection_before_acceptance attempts call_id = once retry_once attempts
decide brand_lock_failure attempts call_id = once recompose_same_layers_once attempts
decide invalid_schema attempts call_id = once repair_once attempts
decide acceptance_unknown attempts call_id =
    ok (record { action = require_explicit_acknowledgement; next_status = failed_retryable })
decide cultural_ambiguity attempts call_id =
    ok (record { action = require_human_review; next_status = ready })
decide safety_refusal attempts call_id =
    ok (record { action = do_not_retry; next_status = failed_final })

-- `decide_retry`
unfoldable pub decide_retry : RetryCondition → ℤ → Option String → Result RetryError RetryDecision
decide_retry condition attempts call_id =
    if ltb_ℤ attempts (pos 0) then err negative_attempts else decide condition attempts call_id
