-- ===== src/Compositions.antt =====
-- cultureshift/composition_service.py and composition_export.py: the first composition of a run, and
-- the export of a stored one. Drawing and the store of images are those that the revision service
-- uses.
pub mod Drawing
pub mod Exports
pub mod Laws
pub mod Replay
use cultureshift.Base.{
  ℕ, ◌+◌, String, string_eq, Bool, not, ◌||◌, List, Option, none, some, ◌!=◌, if◌then◌else◌,
}
use cultureshift.Base.Result.{Result, ok, err}
use cultureshift.Domain
use cultureshift.Domain.{Uuid, ProjectRun, status_eq}
use cultureshift.Contracts.{
  BrandLock, BackgroundRequest, background_request_valid, canvas_width, canvas_height,
  required_guardrails, CompositionGenerated, composition_valid, fixture, execution_mode_eq,
  is_given,
}
use cultureshift.Repository.State.{RepositoryError, DraftRecord}
use cultureshift.Repository.State
use cultureshift.Repository.Reads.{
  get, get_request, get_analysis, get_confirmed_brand_lock, get_draft, get_composition,
}
use cultureshift.Repository.Artifacts.{save_composition}
use cultureshift.Revising.Session.{
  Failure, technical, unexpected, Composed, Studio, Inputs, World, with_database,
}
use cultureshift.Revising.Session
use cultureshift.Revising.Composing.{first_image, composition_of}
use cultureshift.Actions.{Action, ◌>>=◌, ◌>>◌, give, refuse_when, require, query}
use cultureshift.Compositions.Drawing.{
  CompositionServiceError, run_not_found, invalid_run_state, brand_lock_unconfirmed,
  draft_unavailable, output_invalid, persistence_failed, uncaught, draw,
}

-- The reads catch only `ProjectRunNotFoundError`.
abbrev pub reading : RepositoryError → CompositionServiceError
reading State.run_not_found = run_not_found
reading e = uncaught

-- A run that may be composed.
pub record Ready : Type 0 where
  pub run : ProjectRun
  pub lock : BrandLock
  pub draft : DraftRecord

-- The reads and checks of `generate`.
unfoldable pub read_ready : {Store : Type 0} → Uuid → Action CompositionServiceError Store Ready
read_ready run_id = do
  run ← query reading (get run_id)
  request ← query reading (get_request run_id)
  analysis ← query reading (get_analysis run_id)
  confirmation ← query reading (get_confirmed_brand_lock run_id)
  draft ← query reading (get_draft run_id)
  refuse_when (run.status != Domain.in_progress || not (is_given analysis)) invalid_run_state
  refuse_when (request.execution_mode != fixture) invalid_run_state
  confirmed ← require confirmation brand_lock_unconfirmed
  copy ← require draft draft_unavailable
  give (ok (record { run = run; lock = confirmed.brand_lock; draft = copy }))

-- The composition that another request stored meanwhile.
abbrev pub replayed :
    Option CompositionGenerated → Result CompositionServiceError CompositionGenerated
replayed none = err persistence_failed
replayed (some existing) = ok existing

abbrev pub found_again :
    Result RepositoryError (Option CompositionGenerated)
    → Result CompositionServiceError CompositionGenerated
found_again (ok existing) = replayed existing
found_again (err State.run_not_found) = err persistence_failed
found_again (err e) = err uncaught

module _ {Store : Type 0} (studio : Studio Store) where
  -- `self._artifact_store.delete(artifact_id)` before an error is raised.
  abbrev pub discard :
      {A : Type 0} → Uuid → CompositionServiceError → Action CompositionServiceError Store A
  discard artifact e w =
      let (r, store) = studio.delete artifact w.store in
      (elim r [ ok _ ↦ err e | err _ ↦ err uncaught ], record w { store = store })

  abbrev pub replay :
      Uuid → Uuid → World Store → Result CompositionServiceError CompositionGenerated × World Store
  replay run_id artifact w =
      let (r, store) = studio.delete artifact w.store in
      (
        elim r [ ok _ ↦ found_again (get_composition run_id w.database).0 | err _ ↦ err uncaught ],
        record w { store = store },
      )

  -- The `try` around `save_composition`.
  abbrev pub stored :
      Uuid
      → Uuid
      → Result RepositoryError CompositionGenerated
      → Action CompositionServiceError Store CompositionGenerated
  stored run_id artifact (ok composition) = give (ok composition)
  stored run_id artifact (err State.composition_immutable) = replay run_id artifact
  stored run_id artifact (err State.invalid_run_state) = discard artifact invalid_run_state
  stored run_id artifact (err e) = discard artifact persistence_failed

  unfoldable pub persist :
      Uuid → Uuid → CompositionGenerated → Action CompositionServiceError Store CompositionGenerated
  persist run_id artifact composition w =
      let (r, db) = save_composition run_id composition w.database in
      stored run_id artifact r (with_database db w)

  -- What was saved, against what was drawn. A summary that pydantic refuses leaves the artifact.
  abbrev pub check_saved :
      Uuid
      → Inputs
      → ProjectRun
      → Composed
      → Result Failure String
      → Action CompositionServiceError Store CompositionGenerated
  check_saved run_id inputs run composed (err technical) =
      discard inputs.artifact_id persistence_failed
  check_saved run_id inputs run composed (err e) = give (err uncaught)
  check_saved run_id inputs run composed (ok sha) =
      let summary = composition_of inputs run composed in
      if sha != composed.sha256
      then discard inputs.artifact_id persistence_failed
      else if not (composition_valid summary)
      then give (err output_invalid)
      else persist run_id inputs.artifact_id summary

  abbrev pub save_drawing :
      Uuid
      → Inputs
      → ProjectRun
      → Composed
      → Action CompositionServiceError Store CompositionGenerated
  save_drawing run_id inputs run composed w =
      let (r, store) =
        studio.save inputs.artifact_id composed.png_bytes (inputs.generated_at + 86400000000)
          w.store in
      check_saved run_id inputs run composed r (record w { store = store })

  unfoldable pub generate_new :
      Uuid → Inputs → Action CompositionServiceError Store CompositionGenerated
  generate_new run_id inputs = do
    ready ← read_ready run_id
    composed ← give (draw studio ready.run ready.lock ready.draft)
    save_drawing run_id inputs ready.run composed

  abbrev pub existing_or_new :
      Uuid
      → Inputs
      → Option CompositionGenerated
      → Action CompositionServiceError Store CompositionGenerated
  existing_or_new run_id inputs none = generate_new run_id inputs
  existing_or_new run_id inputs (some existing) = give (ok existing)

  -- `CompositionService.generate`
  unfoldable pub generate :
      Uuid → Inputs → Action CompositionServiceError Store CompositionGenerated
  generate run_id inputs = do
    existing ← query reading (get_composition run_id)
    existing_or_new run_id inputs existing
