-- ===== src/Revising/Composing.antt =====
-- revision_service.py: the steps of `_execute` that read version one and draw the second composition.
use cultureshift.Base.{
  string_eq, is_empty, codes, ℕ, ◌+◌, String, Bool, true, not, List, [], ◌∷◌, Option, none, some,
  ◌==◌, ◌!=◌, if◌then◌else◌,
}
use cultureshift.Base.Result.{Result, ok, err}
use cultureshift.Domain.{ProjectRun}
use cultureshift.Contracts.{
  AdAnalysis, BrandLock, BackgroundRequest, background_request_valid, canvas_width, canvas_height,
  required_guardrails, CompositionGenerated, composition_valid, CritiqueReport, critique_status_eq,
  reject, fixture, execution_mode_eq,
}
use cultureshift.Repository.State.{RepositoryError, value_error, DraftRecord, invalid_run_state}
use cultureshift.Repository.Reads.{
  get, get_request, get_analysis, get_confirmed_brand_lock, get_draft, get_composition,
  get_critique,
}
use cultureshift.Revision.{RevisionArtifacts, RevisionError}
use cultureshift.Revising.Session.{
  Failure, repository, technical, unexpected, Composed, Studio, Inputs, Step, ◌>>=◌, ◌>>◌, give,
  fail_when, given, call,
}

-- `get` raises pydantic's `ValidationError`, which is technical; the `ValueError` of other reads is not.
abbrev pub from_get : RepositoryError → Failure
from_get value_error = technical
from_get e = repository e

-- Version one of a run.
pub record VersionOne : Type 0 where
  pub run : ProjectRun
  pub analysis : AdAnalysis
  pub lock : BrandLock
  pub draft : DraftRecord
  pub composition : CompositionGenerated

abbrev pub is_reject : CritiqueReport → Bool
is_reject r = r.status == reject

abbrev pub incomplete : Failure
incomplete = repository invalid_run_state

unfoldable pub read_version_one : {Store : Type 0} → ℕ → Step Store VersionOne
read_version_one run_id = do
  run ← call from_get (get run_id)
  request ← call repository (get_request run_id)
  analysis ← call repository (get_analysis run_id)
  confirmation ← call repository (get_confirmed_brand_lock run_id)
  draft ← call repository (get_draft run_id)
  previous ← call repository (get_composition run_id)
  critique ← call repository (get_critique run_id)
  fail_when (request.execution_mode != fixture) incomplete
  analysis' ← given analysis incomplete
  confirmation' ← given confirmation incomplete
  draft' ← given draft incomplete
  previous' ← given previous incomplete
  critique' ← given critique incomplete
  fail_when (is_reject critique'.report) incomplete
  give (
      ok (record {
        run = run;
        analysis = analysis';
        lock = confirmation'.brand_lock;
        draft = draft';
        composition = previous';
      }))

abbrev pub from_revision : Result RevisionError RevisionArtifacts → Result Failure RevisionArtifacts
from_revision (ok r) = ok r
from_revision (err e) = err unexpected

abbrev pub from_critic : Result (Unit {0}) CritiqueReport → Result Failure CritiqueReport
from_critic (ok r) = ok r
from_critic (err e) = err technical

-- `product_ui_asset_ids[0]`
abbrev pub first_image : List ℕ → Option ℕ
first_image [] = none
first_image (x ∷ xs) = some x

abbrev pub background_request : RevisionArtifacts → ProjectRun → BackgroundRequest
background_request revised run = record {
  direction = run.direction;
  target_locale = revised.brief.target_locale;
  narrative = revised.brief.narrative;
  use_scenario = revised.brief.use_scenario;
  width = canvas_width;
  height = canvas_height;
  prohibited_content = required_guardrails;
}

abbrev pub composition_of : Inputs → ProjectRun → Composed → CompositionGenerated
composition_of inputs run composed = record {
  run_id = run.id;
  rendered_sha256 = composed.sha256;
  artifact_id = inputs.artifact_id;
  layers = composed.layers;
  generated_at = inputs.generated_at;
}

-- `operation.feedback_digest or self._digest("")`
abbrev pub digest_or : (String → String) → Option String → String
digest_or digest none = digest ""
digest_or digest (some d) = if is_empty (codes d) then digest "" else d

module _ {Store : Type 0} (studio : Studio Store) where
  abbrev pub save_artifact : Inputs → Composed → Step Store String
  save_artifact inputs composed s =
      let (r, store) =
        studio.save inputs.artifact_id composed.png_bytes (inputs.generated_at + 86400000000)
          s.world.store in
      elim r [
        | err e ↦ (err e, record s { world = record s.world { store = store } })
        | ok sha ↦
            (ok sha, record { world = record s.world { store = store }; artifact_saved = true })
      ]

  -- The second composition: it is drawn and stored.
  unfoldable pub compose_again :
      Inputs → VersionOne → RevisionArtifacts → Step Store CompositionGenerated
  compose_again inputs v revised = do
    let request = background_request revised v.run
    fail_when (not (background_request_valid request)) technical
    background ← give (studio.generate_background request)
    logo ← give (studio.resolve v.lock.logo_asset_id)
    image ← given (first_image v.lock.product_ui_asset_ids) technical
    product_ui ← give (studio.resolve image)
    composed ← give (
        studio.compose (record {
          run_id = v.run.id;
          background = background;
          brand_lock = v.lock;
          ad_copy = revised.ad_copy;
          logo = logo;
          product_ui = product_ui;
        }))
    sha ← save_artifact inputs composed
    fail_when (sha != composed.sha256) technical
    let composition = composition_of inputs v.run composed
    fail_when (not (composition_valid composition)) technical
    give (ok composition)
