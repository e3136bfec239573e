-- ===== src/Application/Analyses.antt =====
-- app.py: the handler that analyzes a run. The run is claimed before its asset is read, and a failure
-- that the handler catches is recorded with the run.
use cultureshift.Base.{ℕ, String, Bool, not, List, ◌==◌, ◌!=◌, if◌then◌else◌}
use cultureshift.Base.Result.{Result, ok, err}
use cultureshift.Domain.{
  Uuid, Datetime, utc, ProjectRun, ProjectRunStatus, pending, awaiting_brand_lock, blocked, failed,
  status_eq,
}
use cultureshift.Contracts.{
  AdAnalysis, asset_ref_eq, RunCreate, ProductCategory, ai_software, ai_application,
  AnalysisCompleted, analysis_completed_valid, is_given,
}
use cultureshift.Capabilities.{Capability}
use cultureshift.Analysis.{
  AnalysisError, AnalysisOutcome, VisionAnalysisRequest, analyze, invalid_input, unsupported_scope,
  asset_closed, provider_failed, provider_output_invalid, instruction_like_content,
  prohibited_content, unsafe_hypothesis, analysis_refused,
}
use cultureshift.Repository.State.{RepositoryError}
use cultureshift.Repository.State
use cultureshift.Repository.Reads.{get, get_request, get_analysis, get_repair_attempted}
use cultureshift.Repository.Runs.{claim_analysis, complete_analysis, record_failure}
use cultureshift.Actions.{Action, ◌>>=◌, ◌>>◌, give, refuse_when, require, query}
use cultureshift.Storage.Assets.{AssetFailure, closed, storage, other, LoadedAsset}
use cultureshift.Application.{
  HttpError, http, uncaught, Server, Moment, authorize, not_found, conflict, respond,
}

-- `code.value`; the refusal of the analysis has none.
abbrev pub code : AnalysisError → String
code invalid_input = "invalid_analysis_input"
code unsupported_scope = "unsupported_analysis_scope"
code asset_closed = "asset_lifecycle_closed"
code provider_failed = "provider_failed"
code provider_output_invalid = "provider_output_invalid"
code instruction_like_content = "instruction_like_content"
code prohibited_content = "prohibited_content"
code unsafe_hypothesis = "unsafe_hypothesis"
code analysis_refused = ""

-- `ProjectRunStatus.BLOCKED if error.code in blocked_codes else ProjectRunStatus.FAILED`
abbrev pub failed_status : AnalysisError → ProjectRunStatus
failed_status provider_failed = failed
failed_status provider_output_invalid = failed
failed_status e = blocked

abbrev pub failure_answer : AnalysisError → HttpError
failure_answer e = if failed_status e == blocked then http 422 (code e) else http 502 (code e)

-- What the `try` that claims the run and reads its asset ends with, when it does not succeed.
pub data StartFailure : Type 0 where
  refused lifecycle_closed validation_failed passes : StartFailure

abbrev pub starting : RepositoryError → StartFailure
starting State.run_not_found = validation_failed
starting e = passes

abbrev from_assets : Result AssetFailure LoadedAsset → Result StartFailure LoadedAsset
from_assets (ok loaded) = ok loaded
from_assets (err closed) = err lifecycle_closed
from_assets (err storage) = err validation_failed
from_assets (err other) = err passes

pub record Loaded : Type 0 where
  pub stored : RunCreate
  pub content : List ℕ

abbrev category : ProductCategory → String
category ai_software = "ai_software"
category ai_application = "ai_application"

abbrev pub analysis_request : Loaded → VisionAnalysisRequest
analysis_request loaded = record {
  content = loaded.content;
  source_asset = loaded.stored.source_asset;
  direction = loaded.stored.direction;
  brand_lock = loaded.stored.brand_lock;
  product_category = category loaded.stored.product_category;
  creative_format = "static_ad";
}

abbrev pub not_stored : RepositoryError → HttpError
not_stored e = http 500 "analysis_persistence_failed"

abbrev pub pass_on : RepositoryError → HttpError
pass_on e = uncaught

abbrev pub state_invalid : RepositoryError → HttpError
state_invalid e = http 500 "analysis_state_invalid"

abbrev completed : Uuid → AdAnalysis → Bool → Datetime → AnalysisCompleted
completed run_id analysis repaired at = record {
  run_id = run_id;
  analysis = analysis;
  repair_attempted = repaired;
  completed_at = at;
}

module _ {Store : Type 0} (server : Server Store) (moment : Moment) where
  -- `runs.record_failure(...)` before the exception of the answer.
  unfoldable pub record_and_raise :
      Uuid → ProjectRunStatus → String → HttpError → Action HttpError Store AnalysisCompleted
  record_and_raise run_id status text e = do
    recorded ← query pass_on (record_failure run_id status text (utc moment.now))
    give (err e)

  -- The request that was stored and the asset, once the run is claimed.
  unfoldable pub claim_and_load : Uuid → Action StartFailure Store Loaded
  claim_and_load run_id = do
    stored ← query starting (get_request run_id)
    claimed ← query starting (claim_analysis run_id (utc moment.now))
    refuse_when (not (is_given claimed)) refused
    loaded ← give (from_assets (moment.load_asset stored.source_asset.asset_id))
    refuse_when (loaded.asset != stored.source_asset) validation_failed
    give (ok (record { stored = stored; content = loaded.content }))

  unfoldable pub complete : Uuid → AnalysisOutcome → Action HttpError Store AnalysisCompleted
  complete run_id outcome = do
    run ←
        query not_stored
          (complete_analysis run_id outcome.analysis outcome.repair_attempted (utc moment.now))
    let answer = completed run.id outcome.analysis outcome.repair_attempted run.updated_at
    give (respond (analysis_completed_valid answer) answer)

  -- `AnalysisPipelineError` is recorded; pydantic's refusal of the analysis passes on.
  abbrev pub conclude :
      Uuid → Result AnalysisError AnalysisOutcome → Action HttpError Store AnalysisCompleted
  conclude run_id (ok outcome) = complete run_id outcome
  conclude run_id (err analysis_refused) = give (err uncaught)
  conclude run_id (err e) = record_and_raise run_id (failed_status e) (code e) (failure_answer e)

  abbrev pub after_loading :
      Uuid → Result StartFailure Loaded → Action HttpError Store AnalysisCompleted
  after_loading run_id (ok loaded) =
      conclude run_id (analyze server.provider (analysis_request loaded) moment.now).0
  after_loading run_id (err refused) = give (err conflict)
  after_loading run_id (err lifecycle_closed) =
      record_and_raise run_id blocked "asset_lifecycle_closed" (http 409 "asset_lifecycle_closed")
  after_loading run_id (err validation_failed) =
      record_and_raise run_id blocked "asset_validation_failed" (http 409 "asset_validation_failed")
  after_loading run_id (err passes) = give (err uncaught)

  unfoldable pub start : Uuid → Action HttpError Store AnalysisCompleted
  start run_id w = let (r, w') = claim_and_load run_id w in after_loading run_id r w'

  -- The answer for a run that was analyzed before.
  unfoldable pub analyzed_before : ProjectRun → Uuid → Action HttpError Store AnalysisCompleted
  analyzed_before run run_id = do
    existing ← query state_invalid (get_analysis run_id)
    analysis ← require existing (http 500 "analysis_state_invalid")
    repaired ← query pass_on (get_repair_attempted run_id)
    let answer = completed run.id analysis repaired run.updated_at
    give (respond (analysis_completed_valid answer) answer)

  abbrev pub dispatch : Uuid → ProjectRun → Action HttpError Store AnalysisCompleted
  dispatch run_id run =
      if run.status == awaiting_brand_lock
      then analyzed_before run run_id
      else if run.status != pending
      then give (err conflict)
      else start run_id

  unfoldable pub analyze_run : Uuid → List ℕ → Action HttpError Store AnalysisCompleted
  analyze_run run_id header = do
    give (authorize server Capability.analyze_project_run run_id header moment.now)
    run ← query not_found (get run_id)
    dispatch run_id run
