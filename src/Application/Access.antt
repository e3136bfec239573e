-- ===== src/Application/Access.antt =====
-- A request without a valid capability for its run does nothing.
use cultureshift.Base.{◌≡◌, arith}
use cultureshift.Base.Result.{err}
use cultureshift.Revising.Session.{World}
use cultureshift.Application.{HttpError, Server, Moment}
use cultureshift.Application.Runs.{get_run}
use cultureshift.Application.Analyses.{analyze_run}
use cultureshift.Application.Artifacts.{
  confirm_brand_lock, generate_draft, generate_composition, run_critic,
}
use cultureshift.Application.Revisions.{
  submit_feedback, retry_revision, export_composition_png, export_composition_json,
}
use cultureshift.Application.Routes.{
  Request, serve, authorization, create, show, analyze, draft, confirm, compose, critic, feedback,
  retry, export_png, export_json,
}

module _ {Store : Type 0} (server : Server Store) (moment : Moment) where
  -- A request whose authorization fails changes neither the database nor the stored images.
  pub serve-refused :
      (r : Request) (w : World Store) (e : HttpError)
      → authorization server moment r ≡ err e
      → serve server moment r w ≡ w
  unfolding serve get_run analyze_run generate_draft confirm_brand_lock generate_composition
      run_critic submit_feedback retry_revision export_composition_png export_composition_json
  serve-refused (create request) w e h = cc
  serve-refused (show id header) w e h = ground arith
  serve-refused (analyze id header) w e h = ground arith
  serve-refused (draft id header) w e h = ground arith
  serve-refused (confirm id proposed header) w e h = ground arith
  serve-refused (compose id header has_body) w e h = ground arith
  serve-refused (critic id header has_body) w e h = ground arith
  serve-refused (feedback id request key header) w e h = ground arith
  serve-refused (retry id request key header) w e h = ground arith
  serve-refused (export_png id version header) w e h = ground arith
  serve-refused (export_json id version header) w e h = ground arith
