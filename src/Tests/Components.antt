-- ===== src/Tests/Components.antt =====
-- The theorems about the other components, at concrete inputs.
use cultureshift.Base.{
  ◌+◌, ◌++◌, true, List, [], ◌∷◌, none, some, ◌≡◌, refl, ◌⊎◌, ◌↔◌, if◌then◌else◌, ◌==◌, contains,
  arith, nat_eq, string_eq, min,
}
use cultureshift.Base.Int.{pos}
use cultureshift.Base.Result.{ok}
use cultureshift.Domain.{
  utc, status_eq, allowed_transitions, in_progress, pending, model_validate, model_dump,
  with_status, warning_codes_valid,
}
use cultureshift.Domain.Transitions.{IsValid, model_validate-IsValid}
use cultureshift.Contracts.{LocalizableField, BrandLock}
use cultureshift.Confirmation.{validate_brand_lock_confirmation}
use cultureshift.Confirmation.Laws.{Confirms, validate_brand_lock_confirmation-Confirms}
use cultureshift.RateLimits.{Limiter}
use cultureshift.RateLimits.Bounds.{
  Request, AllBefore, allowed_count, request_count, HasNoWindow, allowed_count-windows,
}
use cultureshift.Workflow.{RetryCondition, RetryAction, decide_retry}
use cultureshift.Workflow.Decisions.{decide_retry-once}
use cultureshift.Tests.Data.{run, lock}

run_accepted : model_validate (model_dump run) ≡ ok run
unfolding model_validate warning_codes_valid nat_eq
run_accepted = refl

run-IsValid : IsValid run
run-IsValid = model_validate-IsValid (model_dump run) run_accepted

claimed_run :
    with_status run in_progress (utc 200)
    ≡ ok (record run { status = in_progress; updated_at = utc 200 })
unfolding with_status warning_codes_valid nat_eq status_eq
claimed_run = refl

may_start : contains (allowed_transitions pending) in_progress ≡ true
unfolding status_eq
may_start = refl

first_attempt :
    decide_retry RetryCondition.invalid_schema (pos 0) none
    ≡ ok (record { action = RetryAction.repair_once; next_status = in_progress })
unfolding decide_retry nat_eq
first_attempt = refl

decide_retry-once_example :
    (pos 0 ≡ pos 0)
    × (in_progress ≡ in_progress)
    × ((RetryCondition.invalid_schema ≡ RetryCondition.connection_before_acceptance)
        ⊎ (RetryCondition.invalid_schema ≡ RetryCondition.brand_lock_failure)
        ⊎ (RetryCondition.invalid_schema ≡ RetryCondition.invalid_schema))
decide_retry-once_example =
    decide_retry-once RetryCondition.invalid_schema (pos 0) none first_attempt tt

-- The benefits in the other order, and one localizable field.
abbrev proposed : BrandLock
proposed = record lock {
  benefit_order = "speed" ∷ "clarity" ∷ [];
  localizable_fields = LocalizableField.language ∷ [];
}

validate_brand_lock_confirmation-Confirms_example :
    (validate_brand_lock_confirmation proposed lock ≡ ok proposed) ↔ Confirms proposed lock
validate_brand_lock_confirmation-Confirms_example =
    validate_brand_lock_confirmation-Confirms proposed lock

abbrev limiter : Limiter
limiter = record { limit = 2; window = 60; entries = λ k. if k == "a" then some (40, 2) else none }

-- The calls behind the first of a window, and behind the first of the next.
abbrev requests : List Request
requests = ("b", 115) ∷ ("a", 120) ∷ ("a", 159) ∷ []

abbrev later_requests : List Request
later_requests = ("a", 200) ∷ []

window_passed : HasNoWindow 100 60 (limiter.entries "a")
unfolding string_eq
window_passed = omega arith

requests_before : AllBefore "a" 160 requests
requests_before = ground arith

later_before : AllBefore "a" 220 later_requests
later_before = ground arith

allowed_count-windows_example :
    allowed_count "a" ((("a", 100) ∷ requests) ++ (("a", 160) ∷ later_requests)) limiter
    ≡ min (request_count "a" (("a", 100) ∷ requests)) 2
      + min (request_count "a" (("a", 160) ∷ later_requests)) 2
allowed_count-windows_example =
    allowed_count-windows "a" 100 160 requests later_requests limiter window_passed (omega arith)
      requests_before (omega arith) later_before
