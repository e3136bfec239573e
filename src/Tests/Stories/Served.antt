-- ===== src/Tests/Stories/Served.antt =====
-- Requests to the HTTP application from the creation of a run on.
use cultureshift.Base.{ℕ, false, List, [], ◌∷◌, some, ◌≡◌, refl, arith, nat_eq, string_eq, codes_eq}
use cultureshift.Base.Result.{ok}
use cultureshift.Domain.{ready}
use cultureshift.Contracts
use cultureshift.Analysis
use cultureshift.Analysis.{fixture_provider}
use cultureshift.Draft
use cultureshift.Draft.{fixture_write}
use cultureshift.Base.Int
use cultureshift.Critic
use cultureshift.Capabilities.{capability_eq, issue, verify}
use cultureshift.Capabilities.Base64
use cultureshift.Repository.Reads
use cultureshift.Repository.Reads.{get, get_request, get_critique}
use cultureshift.Revising.Session.{World}
use cultureshift.Compositions
use cultureshift.Compositions.Drawing
use cultureshift.Application
use cultureshift.Application.{HttpError, Server, Moment, authorize, uuid_text, invalid_capability}
use cultureshift.Application.Runs
use cultureshift.Application.Analyses
use cultureshift.Application.Artifacts
use cultureshift.Application.Routes.{Request, serve}
use cultureshift.Application.Tokens.{bearer_header}
use cultureshift.Application.Refinement.{serve_all}
use cultureshift.Tests.Data.{request, lock}
use cultureshift.Tests.Stories
use cultureshift.Application.Created.{fresh_run, run_token, create_run-shown}
use cultureshift.Tests.Stories.Requests.{server, at, fresh, header}

create_run-shown_example :
    ((Runs.create_run server (at 100) request fresh).0
      ≡ ok (Runs.created (fresh_run (at 100) request.direction) (run_token server (at 100))))
    × ((Runs.get_run server
          (at 900)
          1
          (bearer_header (run_token server (at 100)))
          (Runs.create_run server (at 100) request fresh).1).0
        ≡ ok (Runs.snapshot server (at 900) (fresh_run (at 100) request.direction)))
unfolding uuid_text Application.hex_digits Base64.encode capability_eq
create_run-shown_example =
    create_run-shown server (at 100) request fresh (at 900) refl refl refl refl (omega arith)
      (omega arith) (omega arith) (omega arith)

-- The run of the fixture from its creation to its review, through the routes.
served : List (Moment × Request) → World (List ℕ)
unfolding Stories.machine serve Runs.create_run Runs.store_run Analyses.analyze_run Analyses.start
    Analyses.claim_and_load Analyses.complete Artifacts.confirm_brand_lock Artifacts.generate_draft
    Artifacts.read_draftable Artifacts.store_draft Artifacts.generate_composition
    Artifacts.run_critic Artifacts.read_reviewable Artifacts.store_review Compositions.generate
    Compositions.generate_new Compositions.read_ready Compositions.persist Drawing.draw issue verify
    authorize uuid_text Application.hex_digits Application.bearer_token Base64.encode Base64.decode
    Base64.decode_groups Base64.letter Base64.digit capability_eq codes_eq Analysis.analyze
    Analysis.detect_media_type Analysis.provider_result_valid fixture_provider fixture_write
    Reads.get_analysis Reads.get_draft Reads.get_confirmed_brand_lock Reads.get_composition
    Reads.get_critique Reads.get_repair_attempted Contracts.run_created_valid
    Contracts.ad_analysis_valid Contracts.composition_valid Contracts.critique_report_valid
    Contracts.critique_completed_valid Contracts.draft_generated_valid
    Contracts.analysis_completed_valid Contracts.brand_lock_confirmed_valid
    Contracts.background_request_valid Contracts.creative_brief_valid Contracts.ad_copy_valid
    Contracts.execution_mode_eq Critic.review Critic.hypothesis_issues Draft.generate
    Contracts.locale_eq Contracts.guardrails_eq Int.int_eq Contracts.layer_kinds_eq
    Critic.found_issues Critic.is_unsafe Critic.brand_lock_preserved Critic.facts_unsupported
    Critic.copy_unreadable Contracts.consistent_status
served rs = serve_all server rs fresh

story : List (Moment × Request)
story =
    (at 100, Request.create request)
    ∷ (at 200, Request.analyze 1 header)
    ∷ (at 400, Request.confirm 1 lock header)
    ∷ (at 500, Request.draft 1 header)
    ∷ (at 600, Request.compose 1 header false)
    ∷ (at 700, Request.critic 1 header false)
    ∷ []

served_ready : Stories.status_at (served story).database ≡ some ready
unfolding story served Stories.status_at
served_ready = refl
