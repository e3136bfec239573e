-- ===== src/Repository/Runs.antt =====
-- repository.py: the methods that create a run, move its status, and complete or fail its analysis.
use cultureshift.Base.{
  ◌+◌, String, Bool, true, false, not, ◌||◌, [], ◌∷◌, ◌++◌, Option, none, some, ◌==◌, ◌!=◌,
  if◌then◌else◌,
}
use cultureshift.Domain.{
  Uuid, Datetime, ProjectRun, ProjectRunStatus, pending, in_progress, awaiting_brand_lock, blocked,
  failed, model_dump, model_validate, with_status, direction_eq, status_eq,
}
use cultureshift.Contracts.{AdAnalysis, RunCreate, brand_lock_eq, asset_ref_eq, is_given}
use cultureshift.Repository.State.{
  RunRow, ContextRow, put, value_error, run_not_found, duplicate_run,
}
use cultureshift.Repository.Monad.{
  Method, pure, ◌>>=◌, ◌>>◌, gets, modify, raise_when, or_raise, lift, transaction,
}
use cultureshift.Repository.Reads.{get, get_request, from_domain}

-- The columns of `project_runs` for a run.
abbrev pub run_row : ProjectRun → RunRow
run_row r = record {
  direction = r.direction;
  status = r.status;
  warning_codes = r.warning_codes;
  created_at = r.created_at;
  updated_at = r.updated_at;
}

-- A new context: the request, and the defaults of the other columns.
abbrev pub new_context : RunCreate → ContextRow
new_context request = record {
  request = request;
  analysis = none;
  repair_attempted = 0;
  confirmed_brand_lock = none;
  brand_lock_confirmed_at = none;
  creative_brief = none;
  ad_copy = none;
  draft_fact_references = none;
  draft_rule_ids = none;
  draft_generated_at = none;
  composition = none;
  critique = none;
  critic_reviewed_at = none;
  initial_generation_count = 0;
  human_revision_count = 0;
  technical_attempt_count = 0;
}

-- `UPDATE project_runs SET status, updated_at WHERE id` of a row that was read.
abbrev pub write_run : Uuid → RunRow → Method (Unit {0})
write_run id row = modify (λ db. record db { runs = put id row db.runs })

abbrev pub write_context : Uuid → ContextRow → Method (Unit {0})
write_context id row = modify (λ db. record db { contexts = put id row db.contexts })

-- INSERT under a primary key; a clash is an `IntegrityError`.
abbrev insert_run : Uuid → RunRow → Method (Unit {0})
insert_run id row = do
  existing ← gets (λ db. db.runs id)
  raise_when (is_given existing) duplicate_run
  write_run id row

abbrev insert_context : Uuid → ContextRow → Method (Unit {0})
insert_context id row = do
  existing ← gets (λ db. db.contexts id)
  raise_when (is_given existing) duplicate_run
  write_context id row

abbrev insert_request : ProjectRun → Option RunCreate → Method (Unit {0})
insert_request run none = pure tt
insert_request run (some request) = do
  raise_when (request.direction != run.direction) value_error
  insert_context run.id (new_context request)

unfoldable pub create : ProjectRun → Option RunCreate → Method ProjectRun
create run request = do
  transaction (insert_run run.id (run_row run) >> insert_request run request)
  pure run

unfoldable pub increment_technical_attempt : Uuid → Method ProjectRun
increment_technical_attempt id = do
  transaction (do
    c ← or_raise (← gets (λ db. db.contexts id)) run_not_found
    write_context id (record c { technical_attempt_count = c.technical_attempt_count + 1 }))
  get id

-- `now` is the time that `utc_now()` gives.
unfoldable pub update_status : Uuid → ProjectRunStatus → Datetime → Method ProjectRun
update_status id status now = do
  current ← get id
  updated ← lift (from_domain (with_status current status now))
  transaction (do
    row ← or_raise (← gets (λ db. db.runs updated.id)) run_not_found
    write_run updated.id (record row { status = updated.status; updated_at = updated.updated_at }))
  pure updated

-- `UPDATE … WHERE id = ? AND status = ?`, with whether a row was changed.
abbrev pub move_status : Uuid → ProjectRunStatus → ProjectRunStatus → Datetime → Method Bool
move_status id from to at = do
  existing ← gets (λ db. db.runs id)
  elim existing [
    | none ↦ pure false
    | some row ↦
        if row.status == from
        then (write_run id (record row { status = to; updated_at = at }) >> pure true)
        else pure false
  ]

abbrev claimed_run : Uuid → Bool → Method (Option ProjectRun)
claimed_run id true = do run ← get id; pure (some run)
claimed_run id false = do run ← get id; pure none

unfoldable pub claim_analysis : Uuid → Datetime → Method (Option ProjectRun)
claim_analysis id now = do
  claimed ← transaction (move_status id pending in_progress now)
  claimed_run id claimed

unfoldable pub complete_analysis : Uuid → AdAnalysis → Bool → Datetime → Method ProjectRun
complete_analysis id analysis repair_attempted now = do
  current ← get id
  request ← get_request id
  raise_when
      (analysis.source_asset != request.source_asset || analysis.brand_lock != request.brand_lock)
      value_error
  updated ← lift (from_domain (with_status current awaiting_brand_lock now))
  transaction (do
    c ← or_raise (← gets (λ db. db.contexts id)) run_not_found
    write_context id (record c {
      analysis = some analysis;
      repair_attempted = if repair_attempted then 1 else 0;
    })
    moved ← move_status id in_progress updated.status updated.updated_at
    raise_when (not moved) run_not_found)
  pure updated

unfoldable pub record_failure : Uuid → ProjectRunStatus → String → Datetime → Method ProjectRun
record_failure id status code now = do
  raise_when (not (status == blocked || status == failed)) value_error
  current ← get id
  transitioned ← lift (from_domain (with_status current status now))
  updated ← lift (
      from_domain (
        model_validate (record (model_dump transitioned) {
          warning_codes = current.warning_codes ++ (code ∷ []);
        })))
  transaction (do
    row ← or_raise (← gets (λ db. db.runs updated.id)) run_not_found
    write_run updated.id (record row {
      status = updated.status;
      warning_codes = updated.warning_codes;
      updated_at = updated.updated_at;
    }))
  pure updated
