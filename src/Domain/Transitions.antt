-- ===== src/Domain/Transitions.antt =====
-- What `ProjectRun` guarantees of a value that it accepts, and of a change of status.
use cultureshift.Base.{
  ◌≤◌, true, some, ◌≡◌, arith, contains, length, all, is_unique_iff, IsUnique, string_eq,
}
use cultureshift.Base.Result.{ok}
use cultureshift.Domain.{
  ProjectRun, ProjectRunStatus, RunValues, Datetime, is_aware, is_warning_code, warning_codes_valid,
  model_validate, model_dump, with_status, allowed_transitions, status_eq,
}

-- What every accepted run satisfies.
pub record IsValid (r : ProjectRun) : Type 0 where
  pub few_codes : length r.warning_codes ≤ 32
  pub unique_codes : IsUnique r.warning_codes
  pub codes_only : all is_warning_code r.warning_codes ≡ true
  pub one_generation : r.initial_generation_count ≤ 1
  pub one_revision : r.human_revision_count ≤ 1
  pub created_aware : is_aware r.created_at ≡ true
  pub updated_aware : is_aware r.updated_at ≡ true
  pub updated_later : r.created_at.instant ≤ r.updated_at.instant

-- Every run that the validators accept has at most 32 distinct codes of the right shape, at most one
-- generation and one revision, aware times, and no update before its creation.
pub model_validate-IsValid : (v : RunValues) {r : ProjectRun} → model_validate v ≡ ok r → IsValid r
unfolding model_validate warning_codes_valid
model_validate-IsValid v {r} e = ground (arith, is_unique_iff v.warning_codes)

-- A change of status succeeds only along the table of allowed transitions, and changes the status
-- and the time of the update only; the result is valid, whatever the run was.
pub with_status-IsValid :
    (r : ProjectRun) (s : ProjectRunStatus) (at : Datetime) {r' : ProjectRun}
    → with_status r s at ≡ ok r'
    → (contains (allowed_transitions r.status) s ≡ true)
      × (r' ≡ record r { status = s; updated_at = at })
      × IsValid r'
unfolding with_status
with_status-IsValid r s at {r'} e = ground (
  arith,
  model_validate-IsValid (record (model_dump r) { status = s; updated_at = some at }) {r = r'},
)

-- On a valid run, a change of status along the table at an aware time that is no earlier than the
-- creation is accepted.
pub with_status_total :
    (r : ProjectRun) (s : ProjectRunStatus) (at : Datetime)
    → IsValid r
    → contains (allowed_transitions r.status) s ≡ true
    → is_aware at ≡ true
    → r.created_at.instant ≤ at.instant
    → with_status r s at ≡ ok (record r { status = s; updated_at = at })
unfolding with_status warning_codes_valid
with_status_total r s at v allowed aware later = ground (arith, is_unique_iff r.warning_codes)
