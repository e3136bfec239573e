-- ===== src/Application/Refinement.antt =====
-- Every request does to the database what a sequence of calls of the repository does, each made as the
-- application's discipline wants it.
pub mod Creation
pub mod Analyses
pub mod Artifacts
pub mod Revisions
use cultureshift.Base.{List, [], ◌∷◌}
use cultureshift.Repository.State.{Database}
use cultureshift.Repository.Exclusive.{Reached}
use cultureshift.Repository.Lifecycle.{Later, same, Later-trans, Later-Reached}
use cultureshift.Revising.Session.{World}
use cultureshift.Application.{Server, Moment}
use cultureshift.Application.Routes.{
  Request, serve, create, show, analyze, draft, confirm, compose, critic, feedback, retry,
  export_png, export_json,
}
use cultureshift.Application.Refinement.Creation.{create_run-Extends, get_run-Extends}
use cultureshift.Application.Refinement.Analyses.{analyze_run-Later}
use cultureshift.Application.Refinement.Artifacts.{
  confirm_brand_lock-Extends, generate_draft-Extends, generate_composition-Extends,
  run_critic-Extends,
}
use cultureshift.Application.Refinement.Revisions.{
  submit_feedback-Extends, retry_revision-Extends, export_composition_png-Extends,
  export_composition_json-Extends,
}

module _ {Store : Type 0} (server : Server Store) where
  serve-Later :
      (moment : Moment) (r : Request) (w : World Store)
      → Reached w.database
      → Later w.database (serve server moment r w).database
  unfolding serve
  serve-Later moment (create request) w h = create_run-Extends server moment request w
  serve-Later moment (show id header) w h = get_run-Extends server moment id header w
  serve-Later moment (analyze id header) w h = analyze_run-Later server moment id header w h
  serve-Later moment (draft id header) w h = generate_draft-Extends server moment id header w
  serve-Later moment (confirm id proposed header) w h =
      confirm_brand_lock-Extends server moment id proposed header w
  serve-Later moment (compose id header has_body) w h =
      generate_composition-Extends server moment id header has_body w
  serve-Later moment (critic id header has_body) w h =
      run_critic-Extends server moment id header has_body w
  serve-Later moment (feedback id request key header) w h =
      submit_feedback-Extends server moment id request key header w
  serve-Later moment (retry id request key header) w h =
      retry_revision-Extends server moment id request key header w
  serve-Later moment (export_png id version header) w h =
      export_composition_png-Extends server moment id version header w
  serve-Later moment (export_json id version header) w h =
      export_composition_json-Extends server moment id version header w

  -- Requests one after another, each at its moment.
  abbrev pub serve_all : List (Moment × Request) → World Store → World Store
  serve_all [] w = w
  serve_all ((moment, r) ∷ rs) w = serve_all rs (serve server moment r w)

  -- Whatever requests are served, in any order, with any credentials and whatever the providers, the
  -- assets and the store of images give: the database moves by a sequence of calls of the repository
  -- that keeps the application's discipline. What holds along such sequences thus holds of the
  -- application, when each request is handled as one step.
  pub serve_all-Later :
      (rs : List (Moment × Request)) (w : World Store)
      → Reached w.database
      → Later w.database (serve_all rs w).database
  serve_all-Later [] w h = same
  serve_all-Later ((moment, r) ∷ rs) w h =
      let step = serve-Later moment r w h in
      Later-trans step (serve_all-Later rs (serve server moment r w) (Later-Reached h step))
