-- ===== src/Domain.antt =====
-- cultureshift/domain.py: the statuses of a run, the table of transitions, and `ProjectRun` with
-- its validators. A `datetime` is its instant in microseconds with what its zone says.
pub mod Transitions
use cultureshift.Base.{
  ℕ, String, Bool, true, false, ◌&&◌, ◌||◌, Option, none, some, List, [], ◌∷◌, Eq, ◌==◌, string_eq,
  nat_eq, leb, if◌then◌else◌, contains, length, all, is_unique, codes, is_lower, is_digit,
}
use cultureshift.Base.Result.{Result, ok, err}

-- A `UUID`.
abbrev pub Uuid : Type 0
Uuid = ℕ

pub data LocalizationDirection : Type 0 where
  china_to_uk uk_to_china : LocalizationDirection

unfoldable pub LocalizationDirection-discrete : Discrete LocalizationDirection
LocalizationDirection-discrete = hlevel

instance unfoldable pub direction_eq : Eq LocalizationDirection
unfolding LocalizationDirection-discrete
direction_eq = record { dec = LocalizationDirection-discrete }

pub data ProjectRunStatus : Type 0 where
  pending in_progress awaiting_brand_lock blocked completed failed : ProjectRunStatus
  ready failed_retryable failed_final : ProjectRunStatus

unfoldable pub ProjectRunStatus-discrete : Discrete ProjectRunStatus
ProjectRunStatus-discrete = hlevel

instance unfoldable pub status_eq : Eq ProjectRunStatus
unfolding ProjectRunStatus-discrete
status_eq = record { dec = ProjectRunStatus-discrete }

-- `_ALLOWED_TRANSITIONS`
abbrev pub allowed_transitions : ProjectRunStatus → List ProjectRunStatus
allowed_transitions pending = in_progress ∷ blocked ∷ failed ∷ []
allowed_transitions in_progress =
    awaiting_brand_lock ∷ blocked ∷ completed ∷ failed ∷ ready ∷ failed_retryable ∷ failed_final
    ∷ []
allowed_transitions awaiting_brand_lock = in_progress ∷ failed ∷ []
allowed_transitions blocked = in_progress ∷ failed ∷ []
allowed_transitions completed = []
allowed_transitions failed = []
allowed_transitions ready = in_progress ∷ []
allowed_transitions failed_retryable = in_progress ∷ []
allowed_transitions failed_final = []

-- What `tzinfo` and `utcoffset()` say: no offset, or seconds east or (one more than) west.
pub data Zone : Type 0 where
  naive : Zone
  ahead : ℕ → Zone
  behind : ℕ → Zone

pub record Datetime : Type 0 where
  pub instant : ℕ
  pub zone : Zone

abbrev pub utc : ℕ → Datetime
utc t = record { instant = t; zone = ahead 0 }

abbrev zone_is_aware : Zone → Bool
zone_is_aware naive = false
zone_is_aware (ahead s) = true
zone_is_aware (behind s) = true

abbrev pub is_aware : Datetime → Bool
is_aware t = zone_is_aware t.zone

abbrev zone_is_utc : Zone → Bool
zone_is_utc naive = false
zone_is_utc (ahead s) = s == 0
zone_is_utc (behind s) = false

-- `value.tzinfo is not None and value.utcoffset() == timedelta(0)`
unfoldable pub is_utc : Datetime → Bool
is_utc t = zone_is_utc t.zone

-- Every `ValueError` of this file: a refused transition, or a value that pydantic refuses.
pub data DomainError : Type 0 where
  invalid_transition validation_failed : DomainError

pub record ProjectRun : Type 0 where
  pub id : Uuid
  pub direction : LocalizationDirection
  pub status : ProjectRunStatus
  pub warning_codes : List String
  pub initial_generation_count : ℕ
  pub human_revision_count : ℕ
  pub technical_attempt_count : ℕ
  pub created_at : Datetime
  pub updated_at : Datetime

-- The values that `ProjectRun.model_validate` is given; `updated_at` may be missing.
pub record RunValues : Type 0 where
  pub id : Uuid
  pub direction : LocalizationDirection
  pub status : ProjectRunStatus
  pub warning_codes : List String
  pub initial_generation_count : ℕ
  pub human_revision_count : ℕ
  pub technical_attempt_count : ℕ
  pub created_at : Datetime
  pub updated_at : Option Datetime

abbrev code_tail : List ℕ → Bool
code_tail cs = leb (length cs) 63 && all (λ c. is_lower c || is_digit c || c == b'_') cs

abbrev code_shape : List ℕ → Bool
code_shape [] = false
code_shape (c ∷ cs) = is_lower c && code_tail cs

-- `re.fullmatch(r"[a-z][a-z0-9_]{0,63}", code)`
unfoldable pub is_warning_code : String → Bool
is_warning_code s = code_shape (codes s)

-- `validate_warning_codes`
unfoldable pub warning_codes_valid : List String → Bool
warning_codes_valid cs = leb (length cs) 32 && is_unique cs && all is_warning_code cs

-- `validate_timestamps`: the value of `updated_at` when the two are accepted.
unfoldable pub validate_timestamps : Datetime → Option Datetime → Option Datetime
validate_timestamps created none = if is_aware created then some created else none
validate_timestamps created (some updated) =
    if is_aware created && is_aware updated && leb created.instant updated.instant
    then some updated
    else none

abbrev with_updated : RunValues → Option Datetime → Result DomainError ProjectRun
with_updated v none = err validation_failed
with_updated v (some t) = ok (record {
  id = v.id;
  direction = v.direction;
  status = v.status;
  warning_codes = v.warning_codes;
  initial_generation_count = v.initial_generation_count;
  human_revision_count = v.human_revision_count;
  technical_attempt_count = v.technical_attempt_count;
  created_at = v.created_at;
  updated_at = t;
})

-- `ProjectRun.model_validate(values)`
unfoldable pub model_validate : RunValues → Result DomainError ProjectRun
unfolding validate_timestamps
model_validate v =
    if warning_codes_valid v.warning_codes
      && leb v.initial_generation_count 1
      && leb v.human_revision_count 1
    then with_updated v (validate_timestamps v.created_at v.updated_at)
    else err validation_failed

-- `self.model_dump()`
abbrev pub model_dump : ProjectRun → RunValues
model_dump r = record {
  id = r.id;
  direction = r.direction;
  status = r.status;
  warning_codes = r.warning_codes;
  initial_generation_count = r.initial_generation_count;
  human_revision_count = r.human_revision_count;
  technical_attempt_count = r.technical_attempt_count;
  created_at = r.created_at;
  updated_at = some r.updated_at;
}

-- `ProjectRun.with_status`; `at` is `updated_at or utc_now()`.
unfoldable pub with_status :
    ProjectRun → ProjectRunStatus → Datetime → Result DomainError ProjectRun
unfolding model_validate
with_status r s at =
    if contains (allowed_transitions r.status) s
    then model_validate (record (model_dump r) { status = s; updated_at = some at })
    else err invalid_transition
