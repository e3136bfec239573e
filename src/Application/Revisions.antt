-- ===== src/Application/Revisions.antt =====
-- app.py: the handlers of feedback, of a retry and of the exports.
use cultureshift.Base.{ℕ, String, codes, is_empty, nat_eq, List, ◌!=◌}
use cultureshift.Domain.{Uuid}
use cultureshift.Contracts.{FeedbackRequest, RetryRequest, RevisionCompleted}
use cultureshift.Capabilities.{Capability}
use cultureshift.Revising
use cultureshift.Revising.Session.{ServiceError}
use cultureshift.Compositions.Exports.{
  CompositionExportError, ExportedComposition, ResultVersionNumber, export_png, export_json,
  run_not_found, composition_unavailable, artifact_unavailable, uncaught,
}
use cultureshift.Actions.{Action, ◌>>◌, give, refuse_when}
use cultureshift.Application
use cultureshift.Application.{HttpError, http, Server, Moment, authorize, conflict}
use cultureshift.Application.Artifacts.{answer_error}

-- `revision_failure`
abbrev pub revision_failure : ServiceError → HttpError
revision_failure ServiceError.run_not_found = http 404 "run_not_found"
revision_failure ServiceError.invalid_revision_request = http 422 "invalid_revision_request"
revision_failure ServiceError.revision_failed = http 500 "revision_failed"
revision_failure ServiceError.retry_failed = http 500 "retry_failed"
revision_failure ServiceError.invalid_run_state = conflict
revision_failure ServiceError.idempotency_conflict = http 409 "idempotency_conflict"
revision_failure ServiceError.operation_in_progress = http 409 "operation_in_progress"
revision_failure ServiceError.revision_limit_reached = http 409 "revision_limit_reached"
revision_failure ServiceError.uncaught = Application.uncaught

-- `export_failure`
abbrev pub export_failure : CompositionExportError → HttpError
export_failure run_not_found = http 404 "run_not_found"
export_failure composition_unavailable = http 409 "composition_unavailable"
export_failure artifact_unavailable = http 410 "composition_artifact_unavailable"
export_failure uncaught = Application.uncaught

module _ {Store : Type 0} (server : Server Store) (moment : Moment) where
  -- `require_run_update_capability` and `require_composition_read_capability`
  abbrev pub require_capability : Capability → Uuid → List ℕ → Action HttpError Store (Unit {0})
  require_capability required run_id header =
      give (authorize server required run_id header moment.now)

  abbrev pub revise : FeedbackRequest → String → Action HttpError Store RevisionCompleted
  revise feedback key w =
      let (r, w') = Revising.submit_feedback server.studio feedback key moment.inputs w in
      (answer_error revision_failure r, w')

  -- `key` is the `Idempotency-Key` header, or the empty text.
  unfoldable pub submit_feedback :
      Uuid → FeedbackRequest → String → List ℕ → Action HttpError Store RevisionCompleted
  submit_feedback run_id feedback key header = do
    require_capability Capability.update_project_run run_id header
    refuse_when (is_empty (codes key)) (http 422 "invalid_revision_request")
    refuse_when (feedback.run_id != run_id) conflict
    revise feedback key

  abbrev pub revise_again : RetryRequest → String → Action HttpError Store RevisionCompleted
  revise_again request key w =
      let (r, w') = Revising.retry server.studio request key moment.inputs w in
      (answer_error revision_failure r, w')

  unfoldable pub retry_revision :
      Uuid → RetryRequest → String → List ℕ → Action HttpError Store RevisionCompleted
  retry_revision run_id request key header = do
    require_capability Capability.update_project_run run_id header
    refuse_when (is_empty (codes key)) (http 422 "invalid_revision_request")
    refuse_when (request.run_id != run_id) conflict
    revise_again request key

  abbrev pub export_image : Uuid → ResultVersionNumber → Action HttpError Store ExportedComposition
  export_image run_id version w =
      let (r, w') = export_png server.export run_id version w in (answer_error export_failure r, w')

  unfoldable pub export_composition_png :
      Uuid → ResultVersionNumber → List ℕ → Action HttpError Store ExportedComposition
  export_composition_png run_id version header = do
    require_capability Capability.read_project_run run_id header
    export_image run_id version

  abbrev pub export_text : Uuid → ResultVersionNumber → Action HttpError Store (List ℕ)
  export_text run_id version w =
      let (r, w') = export_json server.export run_id version w in
      (answer_error export_failure r, w')

  unfoldable pub export_composition_json :
      Uuid → ResultVersionNumber → List ℕ → Action HttpError Store (List ℕ)
  export_composition_json run_id version header = do
    require_capability Capability.read_project_run run_id header
    export_text run_id version
