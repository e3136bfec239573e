-- ===== src/Compositions/Laws.antt =====
-- What a request for the first composition does to the database.
use cultureshift.Base.{String, not, Option, none, some, ◌≡◌, arith, refl, ◌!=◌, string_eq}
use cultureshift.Base.Result.{Result, ok, err}
use cultureshift.Domain.{Uuid, ProjectRun, status_eq}
use cultureshift.Contracts.{CompositionGenerated, composition_valid, execution_mode_eq}
use cultureshift.Repository.State.{RepositoryError, Database}
use cultureshift.Repository.State
use cultureshift.Repository.Reads.{
  get_composition, get_unchanged, get_request_unchanged, get_analysis_unchanged,
  get_confirmed_brand_lock_unchanged, get_draft_unchanged, get_composition_unchanged,
}
use cultureshift.Repository.Artifacts.{save_composition}
use cultureshift.Repository.Calls.{Call, perform}
use cultureshift.Repository.Lifecycle.{Later-trans, same, further}
use cultureshift.Revising.Session.{
  Failure, Composed, Studio, Inputs, World, technical, with_database,
}
use cultureshift.Revising.Session
use cultureshift.Revising.Composing.{composition_of}
use cultureshift.Actions.{◌>>=◌, give, query}
use cultureshift.Actions.Effects.{
  Extends, Extends->>=, Extends-read, Later-eq, Extends-if, Reads, Reads-Extends,
}
use cultureshift.Compositions.{
  reading, discard, stored, persist, check_saved, save_drawing, generate_new, read_ready,
  existing_or_new, generate,
}
use cultureshift.Compositions.Drawing.{draw, persistence_failed, output_invalid}

read_ready-Reads : {Store : Type 0} (run_id : Uuid) → Reads (read_ready {Store = Store} run_id)
unfolding read_ready
read_ready-Reads run_id w = ground (
  arith,
  get_unchanged run_id w.database,
  get_request_unchanged run_id w.database,
  get_analysis_unchanged run_id w.database,
  get_confirmed_brand_lock_unchanged run_id w.database,
  get_draft_unchanged run_id w.database,
)

module _ {Store : Type 0} (studio : Studio Store) where
  stored-Extends :
      (run_id artifact : Uuid) (r : Result RepositoryError CompositionGenerated)
      → Extends (stored studio run_id artifact r)
  stored-Extends run_id artifact (ok m) w = same
  stored-Extends run_id artifact (err e) w = Later-eq (kept e)
    where
      kept :
          (e : RepositoryError) → (stored studio run_id artifact (err e) w).1.database ≡ w.database
      kept State.composition_immutable = refl
      kept State.invalid_run_state = refl
      kept _ = refl

  persist-Extends :
      (run_id artifact : Uuid) (m : CompositionGenerated)
      → Extends (persist studio run_id artifact m)
  unfolding persist perform
  persist-Extends run_id artifact m w =
      Later-trans (further same (Call.save_composition run_id m) tt) (
        stored-Extends run_id artifact (save_composition run_id m w.database).0
          (with_database (save_composition run_id m w.database).1 w))

  check_saved-Extends :
      (run_id : Uuid) (inputs : Inputs) (run : ProjectRun) (composed : Composed)
      (r : Result Failure String)
      → Extends (check_saved studio run_id inputs run composed r)
  check_saved-Extends run_id inputs run composed (err technical) = λ w. same
  check_saved-Extends run_id inputs run composed (err Session.unexpected) = λ w. same
  check_saved-Extends run_id inputs run composed (err (Session.repository e)) = λ w. same
  check_saved-Extends run_id inputs run composed (ok sha) =
      let summary = composition_of inputs run composed in
      Extends-if (sha != composed.sha256) (discard studio inputs.artifact_id persistence_failed) _
        (λ w. same)
        (Extends-if (not (composition_valid summary)) (give (err output_invalid))
          (persist studio run_id inputs.artifact_id summary) (λ w. same)
          (persist-Extends run_id inputs.artifact_id summary))

  save_drawing-Extends :
      (run_id : Uuid) (inputs : Inputs) (run : ProjectRun) (composed : Composed)
      → Extends (save_drawing studio run_id inputs run composed)
  save_drawing-Extends run_id inputs run composed w =
      check_saved-Extends run_id inputs run composed _ _

  generate_new-Extends :
      (run_id : Uuid) (inputs : Inputs) → Extends (generate_new studio run_id inputs)
  unfolding generate_new
  generate_new-Extends run_id inputs =
      Extends->>= (read_ready run_id)
        (λ ready.
          give (draw studio ready.run ready.lock ready.draft)
          >>= save_drawing studio run_id inputs ready.run)
        (Reads-Extends (read_ready run_id) (read_ready-Reads run_id))
        (λ ready.
          Extends->>= (give (draw studio ready.run ready.lock ready.draft))
            (save_drawing studio run_id inputs ready.run) (λ w. same)
            (save_drawing-Extends run_id inputs ready.run))

  -- A request for a composition makes calls of the repository that the application may make.
  pub generate-Extends : (run_id : Uuid) (inputs : Inputs) → Extends (generate studio run_id inputs)
  unfolding generate
  generate-Extends run_id inputs =
      Extends->>= (query reading (get_composition run_id)) (existing_or_new studio run_id inputs)
        (Extends-read reading (get_composition run_id) (get_composition_unchanged run_id)) after
    where
      after : (o : Option CompositionGenerated) → Extends (existing_or_new studio run_id inputs o)
      after none = generate_new-Extends run_id inputs
      after (some m) = λ w. same
