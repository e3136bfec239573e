-- ===== src/Application/Refinement/Artifacts.antt =====
-- Confirming, drafting, composing and reviewing.
use cultureshift.Base.{ℕ, Bool, List, Option, none, some, arith, nat_eq}
use cultureshift.Domain.{Uuid, utc, ProjectRun, status_eq}
use cultureshift.Contracts.{BrandLock, CritiqueReport, brand_lock_confirmed_valid}
use cultureshift.Capabilities.{Capability}
use cultureshift.Draft
use cultureshift.Draft.{DraftArtifacts}
use cultureshift.Critic.{review}
use cultureshift.Repository.State.{DraftRecord, CritiqueRecord}
use cultureshift.Repository.Reads.{
  get, get_draft, get_critique, get_unchanged, get_draft_unchanged, get_critique_unchanged,
  get_analysis_unchanged, get_confirmed_brand_lock_unchanged, get_composition_unchanged,
}
use cultureshift.Repository.Artifacts
use cultureshift.Repository.Calls.{Call, perform}
use cultureshift.Repository.Lifecycle.{same, further}
use cultureshift.Compositions.Laws.{generate-Extends}
use cultureshift.Actions.{◌>>=◌, ◌>>◌, give, refuse_when, query}
use cultureshift.Actions.Effects.{
  Extends, Extends->>=, Extends-checked, Extends-refused, Extends-read, Later-eq,
}
use cultureshift.Application.{Server, Moment, authorize, not_found, respond, http}
use cultureshift.Application.Artifacts.{
  confirm_brand_lock, store_confirmation, confirmed, draft_run, review_run, respond_review,
  confirming, read_draftable, draft_record_of, store_draft, storing_draft, draft_new, respond_draft,
  draft_or_existing, drafting, generate_draft, generate_composition, compose, read_reviewable,
  store_review, review_new, review_or_existing, reviewing, reviewed_or_failed, run_critic,
}

module _ {Store : Type 0} (server : Server Store) (moment : Moment) where
  pub confirm_brand_lock-Extends :
      (id : Uuid) (proposed : BrandLock) (header : List ℕ)
      → Extends (confirm_brand_lock server moment id proposed header)
  unfolding confirm_brand_lock perform
  confirm_brand_lock-Extends id proposed header =
      Extends-checked (authorize server Capability.update_project_run id header moment.now)
        (store_confirmation server moment id proposed)
        (Extends->>= (query confirming (Artifacts.confirm_brand_lock id proposed (utc moment.now)))
          (λ stored.
            give (respond (brand_lock_confirmed_valid (confirmed id stored)) (confirmed id stored)))
          (λ w. further same (Call.confirm_brand_lock id proposed (utc moment.now)) tt)
          (λ stored w. same))

  read_draftable-Extends :
      (id : Uuid) (run : ProjectRun) → Extends (read_draftable server moment id run)
  unfolding read_draftable
  read_draftable-Extends id run w = Later-eq (
      ground (
        arith,
        get_analysis_unchanged id w.database,
        get_confirmed_brand_lock_unchanged id w.database,
      ))

  store_draft-Extends :
      (id : Uuid) (run : ProjectRun) (generated : DraftArtifacts)
      → Extends (store_draft server moment id run generated)
  unfolding store_draft perform
  store_draft-Extends id run generated =
      Extends->>=
        (query storing_draft (Artifacts.save_draft id (draft_record_of server moment generated)))
        (λ stored. give (respond_draft run.id stored))
        (λ w. further same (Call.save_draft id (draft_record_of server moment generated)) tt)
        (λ stored w. same)

  draft_or_existing-Extends :
      (id : Uuid) (run : ProjectRun) (o : Option DraftRecord)
      → Extends (draft_or_existing server moment id run o)
  draft_or_existing-Extends id run (some existing) = λ w. same
  draft_or_existing-Extends id run none =
      Extends->>= (read_draftable server moment id run) (draft_new server moment id run)
        (read_draftable-Extends id run)
        (λ d.
          Extends->>=
            (give (drafting (Draft.generate server.write d.analysis d.lock run.direction)))
            (store_draft server moment id run) (λ w. same) (store_draft-Extends id run))

  pub generate_draft-Extends :
      (id : Uuid) (header : List ℕ) → Extends (generate_draft server moment id header)
  unfolding generate_draft
  generate_draft-Extends id header =
      Extends-checked (authorize server Capability.update_project_run id header moment.now)
        (draft_run server moment id)
        (Extends->>= (query not_found (get_draft id))
          (λ existing.
            query not_found (get id) >>= λ run. draft_or_existing server moment id run existing)
          (Extends-read not_found (get_draft id) (get_draft_unchanged id))
          (λ existing.
            Extends->>= (query not_found (get id))
              (λ run. draft_or_existing server moment id run existing)
              (Extends-read not_found (get id) (get_unchanged id))
              (λ run. draft_or_existing-Extends id run existing)))

  pub generate_composition-Extends :
      (id : Uuid) (header : List ℕ) (has_body : Bool)
      → Extends (generate_composition server moment id header has_body)
  unfolding generate_composition
  generate_composition-Extends id header has_body =
      Extends-checked (authorize server Capability.update_project_run id header moment.now)
        (refuse_when has_body (http 422 "composition_body_not_allowed") >> compose server moment id)
        (Extends-refused has_body (http 422 "composition_body_not_allowed")
          (compose server moment id) (generate-Extends server.studio id moment.inputs))

  read_reviewable-Extends :
      (id : Uuid) (run : ProjectRun) → Extends (read_reviewable server moment id run)
  unfolding read_reviewable
  read_reviewable-Extends id run w = Later-eq (
      ground (
        arith,
        get_analysis_unchanged id w.database,
        get_confirmed_brand_lock_unchanged id w.database,
        get_draft_unchanged id w.database,
        get_composition_unchanged id w.database,
      ))

  store_review-Extends :
      (id : Uuid) (report : CritiqueReport) → Extends (store_review server moment id report)
  unfolding store_review perform
  store_review-Extends id report =
      Extends->>= (query reviewing (Artifacts.save_critique id report))
        (λ stored. query reviewing (get id) >>= λ run. give (respond_review run report))
        (λ w. further same (Call.save_critique id report) tt)
        (λ stored.
          Extends->>= (query reviewing (get id)) (λ run. give (respond_review run report))
            (Extends-read reviewing (get id) (get_unchanged id)) (λ run w. same))

  review_or_existing-Extends :
      (id : Uuid) (run : ProjectRun) (o : Option CritiqueRecord)
      → Extends (review_or_existing server moment id run o)
  review_or_existing-Extends id run (some existing) = λ w. same
  review_or_existing-Extends id run none =
      Extends->>= (read_reviewable server moment id run) (review_new server moment id)
        (read_reviewable-Extends id run)
        (λ request.
          Extends->>=
            (give (
              reviewed_or_failed (review server.studio.casefold request moment.inputs.reviewed_at)))
            (store_review server moment id) (λ w. same) (store_review-Extends id))

  pub run_critic-Extends :
      (id : Uuid) (header : List ℕ) (has_body : Bool)
      → Extends (run_critic server moment id header has_body)
  unfolding run_critic
  run_critic-Extends id header has_body =
      Extends-checked (authorize server Capability.update_project_run id header moment.now)
        (refuse_when has_body (http 422 "critic_body_not_allowed") >> review_run server moment id)
        (Extends-refused has_body (http 422 "critic_body_not_allowed") (review_run server moment id)
          (Extends->>= (query reviewing (get id))
            (λ run. query reviewing (get_critique id) >>= review_or_existing server moment id run)
            (Extends-read reviewing (get id) (get_unchanged id))
            (λ run.
              Extends->>= (query reviewing (get_critique id))
                (review_or_existing server moment id run)
                (Extends-read reviewing (get_critique id) (get_critique_unchanged id))
                (review_or_existing-Extends id run))))
