-- ===== src/Application/Routes.antt =====
-- app.py: the requests about runs, as one type, and what serving one does to the database and the
-- images.
use cultureshift.Base.{ℕ, String, Bool, List}
use cultureshift.Base.Result.{Result, ok}
use cultureshift.Domain.{Uuid}
use cultureshift.Contracts.{BrandLock, FeedbackRequest, RetryRequest, RunCreate}
use cultureshift.Capabilities.{Capability}
use cultureshift.Compositions.Exports.{ResultVersionNumber}
use cultureshift.Revising.Session.{World}
use cultureshift.Application.{HttpError, Server, Moment, authorize}
use cultureshift.Application.Runs.{create_run, get_run}
use cultureshift.Application.Analyses.{analyze_run}
use cultureshift.Application.Artifacts.{
  confirm_brand_lock, generate_draft, generate_composition, run_critic,
}
use cultureshift.Application.Revisions.{
  submit_feedback, retry_revision, export_composition_png, export_composition_json,
}

-- A route with what the handler reads of the request; the list is the `Authorization` header.
pub data Request : Type 0 where
  create : RunCreate → Request
  show analyze draft : Uuid → List ℕ → Request
  confirm : Uuid → BrandLock → List ℕ → Request
  compose critic : Uuid → List ℕ → Bool → Request
  feedback : Uuid → FeedbackRequest → String → List ℕ → Request
  retry : Uuid → RetryRequest → String → List ℕ → Request
  export_png export_json : Uuid → ResultVersionNumber → List ℕ → Request

module _ {Store : Type 0} (server : Server Store) (moment : Moment) where
  -- The world after a request, whatever it was answered.
  unfoldable pub serve : Request → World Store → World Store
  serve (create request) w = (create_run server moment request w).1
  serve (show id header) w = (get_run server moment id header w).1
  serve (analyze id header) w = (analyze_run server moment id header w).1
  serve (draft id header) w = (generate_draft server moment id header w).1
  serve (confirm id proposed header) w = (confirm_brand_lock server moment id proposed header w).1
  serve (compose id header has_body) w = (generate_composition server moment id header has_body w).1
  serve (critic id header has_body) w = (run_critic server moment id header has_body w).1
  serve (feedback id request key header) w =
      (submit_feedback server moment id request key header w).1
  serve (retry id request key header) w = (retry_revision server moment id request key header w).1
  serve (export_png id version header) w =
      (export_composition_png server moment id version header w).1
  serve (export_json id version header) w =
      (export_composition_json server moment id version header w).1

  -- What the handler's authorization says of the request; no token is needed to create a run.
  abbrev pub authorization : Request → Result HttpError (Unit {0})
  authorization (create request) = ok tt
  authorization (show id header) = authorize server Capability.read_project_run id header moment.now
  authorization (analyze id header) =
      authorize server Capability.analyze_project_run id header moment.now
  authorization (draft id header) =
      authorize server Capability.update_project_run id header moment.now
  authorization (confirm id proposed header) =
      authorize server Capability.update_project_run id header moment.now
  authorization (compose id header has_body) =
      authorize server Capability.update_project_run id header moment.now
  authorization (critic id header has_body) =
      authorize server Capability.update_project_run id header moment.now
  authorization (feedback id request key header) =
      authorize server Capability.update_project_run id header moment.now
  authorization (retry id request key header) =
      authorize server Capability.update_project_run id header moment.now
  authorization (export_png id version header) =
      authorize server Capability.read_project_run id header moment.now
  authorization (export_json id version header) =
      authorize server Capability.read_project_run id header moment.now
