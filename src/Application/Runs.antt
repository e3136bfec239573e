-- ===== src/Application/Runs.antt =====
-- app.py: the handlers that create, show and analyze a run.
use cultureshift.Base.{ℕ, not, List, [], ◌∷◌, none, some}
use cultureshift.Base.Result.{Result, ok, err}
use cultureshift.Domain.{
  Uuid, utc, LocalizationDirection, ProjectRun, pending, status_eq, model_validate, DomainError,
}
use cultureshift.Contracts.{
  asset_ref_eq, RunCreate, RunCreated, run_created_valid, RunSnapshot, run_snapshot_valid,
}
use cultureshift.Capabilities.{Capability, issue}
use cultureshift.Repository.State.{RepositoryError}
use cultureshift.Repository.Reads.{get}
use cultureshift.Repository.Runs.{create}
use cultureshift.Actions.{Action, ◌>>=◌, ◌>>◌, give, refuse_when, query}
use cultureshift.Application.{
  HttpError, http, Server, Moment, authorize, uuid_text, not_found, respond,
}

abbrev pub creation_failed : HttpError
creation_failed = http 500 "run_creation_failed"

-- `except Exception` around the whole handler.
abbrev pub or_failed : {E A : Type 0} → HttpError → Result E A → Result HttpError A
or_failed e (ok a) = ok a
or_failed e (err _) = err e

-- `ProjectRun(direction=request.direction)`
abbrev pub new_run : Moment → LocalizationDirection → Result DomainError ProjectRun
new_run moment direction = model_validate (record {
  id = moment.run_id;
  direction = direction;
  status = pending;
  warning_codes = [];
  initial_generation_count = 0;
  human_revision_count = 0;
  technical_attempt_count = 0;
  created_at = utc moment.now;
  updated_at = none;
})

abbrev pub run_capabilities : List Capability
run_capabilities =
    Capability.read_project_run ∷ Capability.analyze_project_run ∷ Capability.update_project_run
    ∷ []

abbrev pub created : ProjectRun → List ℕ → RunCreated
created run token = record {
  run_id = run.id;
  status = run.status;
  capability_token = token;
  created_at = run.created_at;
}

abbrev pub failing : RepositoryError → HttpError
failing e = creation_failed

module _ {Store : Type 0} (server : Server Store) (moment : Moment) where
  -- The run is stored after its token was issued.
  unfoldable pub store_run : RunCreate → ProjectRun → List ℕ → Action HttpError Store RunCreated
  store_run request run token = do
    refuse_when (not (run_created_valid (created run token))) creation_failed
    stored ← query failing (create run (some request))
    give (ok (created run token))

  abbrev pub issue_run : ProjectRun → Result HttpError (List ℕ)
  issue_run run = or_failed creation_failed (
      issue server.codec server.tokens (uuid_text run.id) run_capabilities 900000000
        (utc moment.now))

  unfoldable pub create_run : RunCreate → Action HttpError Store RunCreated
  create_run request = do
    run ← give (or_failed creation_failed (new_run moment request.direction))
    token ← give (issue_run run)
    store_run request run token

  abbrev pub snapshot : ProjectRun → RunSnapshot
  snapshot run = record {
    run_id = run.id;
    direction = run.direction;
    status = run.status;
    warning_codes = run.warning_codes;
    created_at = run.created_at;
    updated_at = run.updated_at;
  }

  unfoldable pub get_run : Uuid → List ℕ → Action HttpError Store RunSnapshot
  get_run run_id header = do
    give (authorize server Capability.read_project_run run_id header moment.now)
    run ← query not_found (get run_id)
    give (respond (run_snapshot_valid (snapshot run)) (snapshot run))
