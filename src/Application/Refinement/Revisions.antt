-- ===== src/Application/Refinement/Revisions.antt =====
-- Feedback, a retry and the exports.
use cultureshift.Base.{ℕ, String, List, ◌≡◌, arith, ◌!=◌, nat_eq, is_empty, codes}
use cultureshift.Domain.{Uuid, status_eq}
use cultureshift.Contracts.{FeedbackRequest, RetryRequest}
use cultureshift.Capabilities.{Capability}
use cultureshift.Repository.State.{Database}
use cultureshift.Repository.Reads.{get_composition_unchanged, get_revision_unchanged}
use cultureshift.Repository.Calls.{Call}
use cultureshift.Repository.Exclusive.{IsDisciplined}
use cultureshift.Repository.Lifecycle.{Later, same, further, Later-trans}
use cultureshift.Revising.Effects.{IsClosed, IsRevision, submit_feedback-effect, retry-effect}
use cultureshift.Revising.Session.{World}
use cultureshift.Compositions.Exports.{ResultVersionNumber, summary, export_png, export_json}
use cultureshift.Actions.Effects.{Extends, Extends-checked, Extends-refused, Later-eq}
use cultureshift.Application.{Server, Moment, authorize, conflict, http}
use cultureshift.Application.Revisions.{
  submit_feedback, retry_revision, revise, revise_again, export_composition_png,
  export_composition_json,
}
use cultureshift.Compositions.Exports

revision-IsDisciplined : (c : Call) (db : Database) → IsRevision c → IsDisciplined c db
revision-IsDisciplined (Call.claim_feedback_operation id key fingerprint changes digest at) db r =
    tt
revision-IsDisciplined (Call.claim_retry_operation id key fingerprint at) db r = tt
revision-IsDisciplined (Call.fail_revision_operation id operation_id condition action at) db r = tt
revision-IsDisciplined (Call.complete_revision id operation_id revision response) db r = tt
revision-IsDisciplined _ db r = elim r [ ]

Later-IsClosed : IsClosed Later
Later-IsClosed = record {
  same = λ a. same;
  chain = λ a b c. Later-trans;
  performed = λ c a r. further same c (revision-IsDisciplined c a r);
}

summary-database :
    {Store : Type 0} (id : Uuid) (version : ResultVersionNumber) (w : World Store)
    → (summary id version w).1.database ≡ w.database
unfolding summary
summary-database id Exports.first w = ground (arith, get_composition_unchanged id w.database)
summary-database id Exports.second w = ground (arith, get_revision_unchanged id w.database)

module _ {Store : Type 0} (server : Server Store) (moment : Moment) where
  pub submit_feedback-Extends :
      (id : Uuid) (request : FeedbackRequest) (key : String) (header : List ℕ)
      → Extends (submit_feedback server moment id request key header)
  unfolding submit_feedback
  submit_feedback-Extends id request key header =
      let body = revise server moment request key in
      Extends-checked (authorize server Capability.update_project_run id header moment.now) _ (
        Extends-refused (is_empty (codes key)) (http 422 "invalid_revision_request") _ (
          Extends-refused (request.run_id != id) conflict body
            (submit_feedback-effect Later-IsClosed server.studio moment.inputs request key)))

  pub retry_revision-Extends :
      (id : Uuid) (request : RetryRequest) (key : String) (header : List ℕ)
      → Extends (retry_revision server moment id request key header)
  unfolding retry_revision
  retry_revision-Extends id request key header =
      let body = revise_again server moment request key in
      Extends-checked (authorize server Capability.update_project_run id header moment.now) _ (
        Extends-refused (is_empty (codes key)) (http 422 "invalid_revision_request") _ (
          Extends-refused (request.run_id != id) conflict body
            (retry-effect Later-IsClosed server.studio moment.inputs request key)))

  pub export_composition_png-Extends :
      (id : Uuid) (version : ResultVersionNumber) (header : List ℕ)
      → Extends (export_composition_png server moment id version header)
  unfolding export_composition_png export_png
  export_composition_png-Extends id version header w =
      Later-eq (ground (arith, summary-database {Store = Store} id version w))

  pub export_composition_json-Extends :
      (id : Uuid) (version : ResultVersionNumber) (header : List ℕ)
      → Extends (export_composition_json server moment id version header)
  unfolding export_composition_json export_json
  export_composition_json-Extends id version header w =
      Later-eq (ground (arith, summary-database {Store = Store} id version w))
