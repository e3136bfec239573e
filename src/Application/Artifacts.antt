-- ===== src/Application/Artifacts.antt =====
-- app.py: the handlers that confirm a Brand Lock, and that draft, compose and review a run.
use cultureshift.Base.{ℕ, String, Bool, ◌&&◌, List, Option, none, some, ◌!=◌}
use cultureshift.Base.Result.{Result, ok, err}
use cultureshift.Domain.{Uuid, utc, is_utc, ProjectRun, in_progress, status_eq}
use cultureshift.Contracts.{
  BrandLock, AdAnalysis, BrandLockConfirmed, brand_lock_confirmed_valid, CompositionGenerated,
  CritiqueReport, CritiqueCompleted, critique_completed_valid, DraftGenerated,
  draft_generated_valid,
}
use cultureshift.Confirmation.{
  ConfirmationErrorCode, locked_field_changed, benefit_order_invalid, localizable_fields_invalid,
}
use cultureshift.Capabilities.{Capability}
use cultureshift.Draft
use cultureshift.Draft.{DraftError, DraftArtifacts}
use cultureshift.Critic.{CriticRequest, review}
use cultureshift.Repository.State.{
  RepositoryError, DraftRecord, CritiqueRecord, BrandLockConfirmationRecord,
}
use cultureshift.Repository.State
use cultureshift.Repository.Reads.{
  get, get_analysis, get_confirmed_brand_lock, get_draft, get_composition, get_critique,
}
use cultureshift.Repository.Artifacts
use cultureshift.Repository.Artifacts.{save_draft, save_critique}
use cultureshift.Compositions
use cultureshift.Compositions.Drawing.{
  CompositionServiceError, run_not_found, invalid_run_state, brand_lock_unconfirmed,
  draft_unavailable, output_invalid, persistence_failed,
}
use cultureshift.Compositions.Drawing
use cultureshift.Actions.{Action, ◌>>=◌, ◌>>◌, give, refuse_when, require, query}
use cultureshift.Application.{
  HttpError, http, uncaught, Server, Moment, authorize, not_found, conflict, respond,
}

abbrev confirmation_code : ConfirmationErrorCode → String
confirmation_code locked_field_changed = "locked_field_changed"
confirmation_code benefit_order_invalid = "benefit_order_invalid"
confirmation_code localizable_fields_invalid = "localizable_fields_invalid"

abbrev pub confirming : RepositoryError → HttpError
confirming State.run_not_found = http 404 "run_not_found"
confirming State.invalid_run_state = conflict
confirming State.brand_lock_immutable = http 409 "brand_lock_immutable"
confirming (State.confirmation_refused c) = http 422 (confirmation_code c)
confirming e = http 500 "brand_lock_persistence_failed"

abbrev pub confirmed : Uuid → BrandLockConfirmationRecord → BrandLockConfirmed
confirmed run_id stored = record {
  run_id = run_id;
  brand_lock = stored.brand_lock;
  confirmed_at = stored.confirmed_at;
}

abbrev pub drafted : Uuid → DraftRecord → DraftGenerated
drafted run_id draft = record {
  run_id = run_id;
  brief = draft.brief;
  ad_copy = draft.ad_copy;
  rule_ids = draft.rule_ids;
  generated_at = draft.generated_at.instant;
}

-- `DraftGenerated(...)`
abbrev pub respond_draft : Uuid → DraftRecord → Result HttpError DraftGenerated
respond_draft run_id draft =
    respond (is_utc draft.generated_at && draft_generated_valid (drafted run_id draft))
      (drafted run_id draft)

abbrev pub drafting : Result DraftError DraftArtifacts → Result HttpError DraftArtifacts
drafting (ok a) = ok a
drafting (err Draft.brand_lock_unconfirmed) = err (http 409 "brand_lock_unconfirmed")
drafting (err Draft.output_invalid) = err (http 422 "draft_output_invalid")
drafting (err Draft.brief_refused) = err uncaught

abbrev pub storing_draft : RepositoryError → HttpError
storing_draft State.invalid_run_state = conflict
storing_draft State.draft_immutable = conflict
storing_draft e = http 500 "draft_persistence_failed"

abbrev pub composing : CompositionServiceError → HttpError
composing run_not_found = http 404 "run_not_found"
composing invalid_run_state = conflict
composing brand_lock_unconfirmed = http 409 "brand_lock_unconfirmed"
composing draft_unavailable = http 409 "draft_unavailable"
composing output_invalid = http 422 "composition_output_invalid"
composing persistence_failed = http 500 "composition_persistence_failed"
composing Drawing.uncaught = uncaught

-- What a handler answers for an error of a service that it calls.
abbrev pub answer_error : {E A : Type 0} → (E → HttpError) → Result E A → Result HttpError A
answer_error f (ok a) = ok a
answer_error f (err e) = err (f e)

abbrev pub reviewing : RepositoryError → HttpError
reviewing State.run_not_found = http 404 "run_not_found"
reviewing State.invalid_run_state = conflict
reviewing State.critique_immutable = conflict
reviewing e = http 500 "critic_failed"

abbrev pub reviewed_or_failed : Result (Unit {0}) CritiqueReport → Result HttpError CritiqueReport
reviewed_or_failed (ok report) = ok report
reviewed_or_failed (err e) = err (http 500 "critic_failed")

abbrev pub reviewed : ProjectRun → CritiqueReport → CritiqueCompleted
reviewed run report = record {
  run_id = run.id;
  status = run.status;
  critique = report;
  initial_generation_count = run.initial_generation_count;
  human_revision_count = run.human_revision_count;
  technical_attempt_count = run.technical_attempt_count;
  reviewed_at = report.reviewed_at;
}

-- `CritiqueCompleted(...)`, which stands behind the `try`.
abbrev pub respond_review : ProjectRun → CritiqueReport → Result HttpError CritiqueCompleted
respond_review run report =
    respond (critique_completed_valid (reviewed run report)) (reviewed run report)

pub record Draftable : Type 0 where
  pub analysis : AdAnalysis
  pub lock : BrandLock

module _ {Store : Type 0} (server : Server Store) (moment : Moment) where
  abbrev pub store_confirmation : Uuid → BrandLock → Action HttpError Store BrandLockConfirmed
  store_confirmation run_id proposed = do
    stored ← query confirming (Artifacts.confirm_brand_lock run_id proposed (utc moment.now))
    give (respond (brand_lock_confirmed_valid (confirmed run_id stored)) (confirmed run_id stored))

  unfoldable pub confirm_brand_lock :
      Uuid → BrandLock → List ℕ → Action HttpError Store BrandLockConfirmed
  confirm_brand_lock run_id proposed header = do
    give (authorize server Capability.update_project_run run_id header moment.now)
    store_confirmation run_id proposed

  -- The checks before a new draft.
  unfoldable pub read_draftable : Uuid → ProjectRun → Action HttpError Store Draftable
  read_draftable run_id run = do
    analysis ← query not_found (get_analysis run_id)
    confirmation ← query not_found (get_confirmed_brand_lock run_id)
    analysis' ← require analysis conflict
    confirmation' ← require confirmation (http 409 "brand_lock_unconfirmed")
    refuse_when (run.status != in_progress) conflict
    give (ok (record { analysis = analysis'; lock = confirmation'.brand_lock }))

  abbrev pub draft_record_of : DraftArtifacts → DraftRecord
  draft_record_of generated = record {
    brief = generated.brief;
    ad_copy = generated.ad_copy;
    fact_references = generated.fact_references;
    rule_ids = generated.rule_ids;
    generated_at = utc moment.now;
  }

  unfoldable pub store_draft :
      Uuid → ProjectRun → DraftArtifacts → Action HttpError Store DraftGenerated
  store_draft run_id run generated = do
    stored ← query storing_draft (save_draft run_id (draft_record_of generated))
    give (respond_draft run.id stored)

  abbrev pub draft_new : Uuid → ProjectRun → Draftable → Action HttpError Store DraftGenerated
  draft_new run_id run d = do
    generated ← give (drafting (Draft.generate server.write d.analysis d.lock run.direction))
    store_draft run_id run generated

  abbrev pub draft_or_existing :
      Uuid → ProjectRun → Option DraftRecord → Action HttpError Store DraftGenerated
  draft_or_existing run_id run (some existing) = give (respond_draft run.id existing)
  draft_or_existing run_id run none = do
    ready ← read_draftable run_id run
    draft_new run_id run ready

  abbrev pub draft_run : Uuid → Action HttpError Store DraftGenerated
  draft_run run_id = do
    existing ← query not_found (get_draft run_id)
    run ← query not_found (get run_id)
    draft_or_existing run_id run existing

  unfoldable pub generate_draft : Uuid → List ℕ → Action HttpError Store DraftGenerated
  generate_draft run_id header = do
    give (authorize server Capability.update_project_run run_id header moment.now)
    draft_run run_id

  abbrev pub compose : Uuid → Action HttpError Store CompositionGenerated
  compose run_id w =
      let (r, w') = Compositions.generate server.studio run_id moment.inputs w in
      (answer_error composing r, w')

  -- `has_body` is whether `request.body()` is not empty.
  unfoldable pub generate_composition :
      Uuid → List ℕ → Bool → Action HttpError Store CompositionGenerated
  generate_composition run_id header has_body = do
    give (authorize server Capability.update_project_run run_id header moment.now)
    refuse_when has_body (http 422 "composition_body_not_allowed")
    compose run_id

  -- What a first review reads.
  unfoldable pub read_reviewable : Uuid → ProjectRun → Action HttpError Store CriticRequest
  read_reviewable run_id run = do
    analysis ← query reviewing (get_analysis run_id)
    confirmation ← query reviewing (get_confirmed_brand_lock run_id)
    draft ← query reviewing (get_draft run_id)
    composition ← query reviewing (get_composition run_id)
    analysis' ← require analysis conflict
    confirmation' ← require confirmation conflict
    draft' ← require draft conflict
    composition' ← require composition conflict
    give (
        ok (record {
          analysis = analysis';
          confirmed_brand_lock = confirmation'.brand_lock;
          draft = draft';
          composition = composition';
          warning_codes = run.warning_codes;
        }))

  unfoldable pub store_review : Uuid → CritiqueReport → Action HttpError Store CritiqueCompleted
  store_review run_id report = do
    stored ← query reviewing (save_critique run_id report)
    run ← query reviewing (get run_id)
    give (respond_review run report)

  abbrev pub review_new : Uuid → CriticRequest → Action HttpError Store CritiqueCompleted
  review_new run_id request = do
    report ←
        give (reviewed_or_failed (review server.studio.casefold request moment.inputs.reviewed_at))
    store_review run_id report

  abbrev pub review_or_existing :
      Uuid → ProjectRun → Option CritiqueRecord → Action HttpError Store CritiqueCompleted
  review_or_existing run_id run (some existing) = give (respond_review run existing.report)
  review_or_existing run_id run none = do
    request ← read_reviewable run_id run
    review_new run_id request

  abbrev pub review_run : Uuid → Action HttpError Store CritiqueCompleted
  review_run run_id = do
    run ← query reviewing (get run_id)
    existing ← query reviewing (get_critique run_id)
    review_or_existing run_id run existing

  unfoldable pub run_critic : Uuid → List ℕ → Bool → Action HttpError Store CritiqueCompleted
  run_critic run_id header has_body = do
    give (authorize server Capability.update_project_run run_id header moment.now)
    refuse_when has_body (http 422 "critic_body_not_allowed")
    review_run run_id
