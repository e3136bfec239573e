-- ===== src/Tests/Stories/Requests.antt =====
-- Requests to the HTTP application, and its theorems at them.
use cultureshift.Base.{
  ℕ, ◌+◌, ◌/◌, String, true, false, List, [], ◌∷◌, ◌++◌, none, some, ◌≡◌, refl, arith, nat_eq,
  string_eq, codes_eq, contains,
}
use cultureshift.Base
use cultureshift.Base.Result.{ok, err}
use cultureshift.Domain
use cultureshift.Domain.{Uuid, utc, ready}
use cultureshift.Analysis.{fixture_provider}
use cultureshift.Draft.{fixture_write}
use cultureshift.Capabilities.{
  Capability, capability_eq, Codec, CapabilityTokenService, Payload, issue, signature,
}
use cultureshift.Capabilities.Base64
use cultureshift.Capabilities.Laws.{claims_for, verify-issue, verify-Allows, Allows, IsSigned}
use cultureshift.Repository.State.{empty_database}
use cultureshift.Repository.Reads.{get, get_request, get_critique}
use cultureshift.Repository.Runs.{run_row}
use cultureshift.Repository.Calls.{Call, perform}
use cultureshift.Repository.Exclusive.{empty}
use cultureshift.Repository.Lifecycle.{Later}
use cultureshift.Revising.Session.{Inputs, World}
use cultureshift.Compositions.Exports.{Export}
use cultureshift.Storage.Assets.{AssetFailure}
use cultureshift.Application
use cultureshift.Application.{HttpError, Server, Moment, authorize, uuid_text, invalid_capability}
use cultureshift.Application.Analyses
use cultureshift.Application.Artifacts
use cultureshift.Application.Routes.{Request, serve}
use cultureshift.Application.Access.{serve-refused}
use cultureshift.Application.Tokens.{authorize-issue, bearer_header}
use cultureshift.Application.Failures.{run_critic-revising, analyze_run-stuck}
use cultureshift.Application.Refinement.{serve_all, serve_all-Later}
use cultureshift.Tests.Data.{digest, request, source, lock, run, report}
use cultureshift.Tests.Stories
use cultureshift.Tests.Stories.Studio.{studio}

-- What the token of the test run says.
abbrev payload : Payload
payload = record {
  aud = "cultureshift-api";
  cap = "project_run:analyze" ∷ "project_run:read" ∷ "project_run:update" ∷ [];
  exp = 900;
  iat = 0;
  sub = uuid_text 1;
  v = 1;
}

abbrev json : List ℕ
json = 123 ∷ 34 ∷ 97 ∷ 117 ∷ 100 ∷ 34 ∷ 58 ∷ 34 ∷ 99 ∷ 34 ∷ 44 ∷ 125 ∷ []

abbrev pub codec : Codec
codec = record {
  dumps = λ p. json;
  loads = λ text. some payload;
  hmac_digest = λ secret text. 7 ∷ [];
}

abbrev pub service : CapabilityTokenService
service = record { secret = 0 ∷ []; audience = "cultureshift-api" }

abbrev capabilities : List Capability
capabilities =
    Capability.read_project_run ∷ Capability.analyze_project_run ∷ Capability.update_project_run
    ∷ []

abbrev token : List ℕ
token = Base64.encode json ++ (b'.' ∷ signature codec service (Base64.encode json))

issued : issue codec service (uuid_text 1) capabilities 900000000 (utc 100) ≡ ok token
unfolding issue capability_eq uuid_text Application.hex_digits nat_eq
issued = refl

verify-Allows_example :
    IsSigned codec service token
    × Allows codec service Capability.update_project_run
        (utc 900)
        (claims_for service (uuid_text 1) capabilities 900000000 100)
unfolding capability_eq
verify-Allows_example =
    verify-Allows codec service token Capability.update_project_run (utc 900)
      (claims_for service (uuid_text 1) capabilities 900000000 100)
      (verify-issue codec service (uuid_text 1) capabilities 900000000 (utc 100) token
        Capability.update_project_run (utc 900) refl refl issued refl refl (omega arith))

abbrev pub export : Export (List ℕ)
export = record {
  load = λ id store.
      ok (record { artifact_id = 30; sha256 = digest; size_bytes = 1; png_bytes = 137 ∷ [] });
  read_image = λ bytes. ok (record { format = "PNG"; width = 1600; height = 900 });
  dump = λ m. [];
}

abbrev pub server : Server (List ℕ)
server = record {
  codec = codec;
  tokens = service;
  provider = fixture_provider;
  write = fixture_write;
  studio = studio;
  export = export;
}

abbrev pub header : List ℕ
header = bearer_header token

abbrev pub inputs : Inputs
inputs = record {
  artifact_id = 30;
  claimed_at = 800;
  generated_at = 600;
  reviewed_at = 700;
  failed_at = 950;
}

abbrev png_bytes : List ℕ
png_bytes = 137 ∷ 80 ∷ 78 ∷ 71 ∷ 13 ∷ 10 ∷ 26 ∷ 10 ∷ 0 ∷ []

-- A moment with a source asset that can be read.
abbrev pub at : ℕ → Moment
at now = record {
  now = now;
  run_id = 1;
  inputs = inputs;
  load_asset = λ id. ok (record { asset = source; content = png_bytes });
}

-- A moment at which the object store fails.
abbrev outage : Moment
outage = record (at 200) { load_asset = λ id. err AssetFailure.other }

-- The token opens the routes of run 1.
authorized : authorize server Capability.update_project_run 1 header 900 ≡ ok tt
unfolding capability_eq codes_eq uuid_text Base.ℕ_discrete
authorized =
    authorize-issue server 1 1 capabilities 900000000 (utc 100) token Capability.update_project_run
      900 refl refl issued refl (omega arith)

authorized_analysis : authorize server Capability.analyze_project_run 1 header 200 ≡ ok tt
unfolding capability_eq codes_eq uuid_text Base.ℕ_discrete
authorized_analysis =
    authorize-issue server 1 1 capabilities 900000000 (utc 100) token Capability.analyze_project_run
      200 refl refl issued refl (omega arith)

authorize-issue_example :
    authorize server Capability.update_project_run 2 header 900
    ≡ err (Application.http 403 "capability_subject_mismatch")
unfolding capability_eq codes_eq uuid_text Application.hex_digits Base.ℕ_discrete
authorize-issue_example =
    authorize-issue server 1 2 capabilities 900000000 (utc 100) token Capability.update_project_run
      900 refl refl issued refl (omega arith)

abbrev pub fresh : World (List ℕ)
fresh = record { database = empty_database; store = [] }

serve_all-Later_example :
    Later empty_database
      (serve_all server
        ((at 100, Request.create request)
          ∷ (at 200, Request.analyze 1 header)
          ∷ (at 400, Request.confirm 1 lock header)
          ∷ (at 500, Request.draft 1 header)
          ∷ (at 600, Request.compose 1 header false)
          ∷ (at 700, Request.critic 1 header false)
          ∷ [])
        fresh).database
serve_all-Later_example =
    serve_all-Later server
      ((at 100, Request.create request)
        ∷ (at 200, Request.analyze 1 header)
        ∷ (at 400, Request.confirm 1 lock header)
        ∷ (at 500, Request.draft 1 header)
        ∷ (at 600, Request.compose 1 header false)
        ∷ (at 700, Request.critic 1 header false)
        ∷ [])
      fresh empty

unsigned : authorize server Capability.analyze_project_run 1 [] 200 ≡ err invalid_capability
unfolding authorize
unsigned = refl

serve-refused_example : serve server (at 200) (Request.analyze 1 []) fresh ≡ fresh
serve-refused_example =
    serve-refused server (at 200) (Request.analyze 1 []) fresh invalid_capability unsigned

-- A run that was just created, and one whose revision is in progress.
abbrev begun : World (List ℕ)
begun = record { database = Stories.after (Call.create run (some request) ∷ []); store = [] }

abbrev revising : World (List ℕ)
revising = record { database = perform Stories.claim (Stories.after Stories.reviewed); store = [] }

begun_run : (get 1 begun.database).0 ≡ ok run
unfolding Stories.machine
begun_run = refl

begun_request : (get_request 1 begun.database).0 ≡ ok request
unfolding Stories.machine
begun_request = refl

begun_row : begun.database.runs 1 ≡ some (run_row run)
unfolding Stories.machine
begun_row = refl

analyze_run-stuck_example :
    ((Analyses.analyze_run server outage 1 header begun).0 ≡ err Application.uncaught)
    × ((Analyses.analyze_run server outage 1 header begun).1.database.runs 1
        ≡ some (record (run_row run) { status = Domain.in_progress; updated_at = utc 200 }))
    × ((Analyses.analyze_run server outage 1 header begun).1.database.contexts 1
        ≡ begun.database.contexts 1)
analyze_run-stuck_example =
    analyze_run-stuck server outage 1 header begun run request (run_row run) authorized_analysis
      begun_run begun_row refl begun_request refl

abbrev revising_run : Domain.ProjectRun
revising_run = record run {
  status = Domain.in_progress;
  initial_generation_count = 1;
  updated_at = utc 800;
}

revising_read : (get 1 revising.database).0 ≡ ok revising_run
unfolding Stories.machine
revising_read = refl

revising_critique :
    (get_critique 1 revising.database).0
    ≡ ok (some (record { report = report; reviewed_at = utc 700 }))
unfolding Stories.machine get_critique
revising_critique = refl

run_critic-revising_example :
    Artifacts.run_critic server (at 900) 1 header false revising
    ≡ (err Application.uncaught, revising)
unfolding Domain.status_eq
run_critic-revising_example =
    run_critic-revising server (at 900) 1 header revising revising_run
      (record { report = report; reviewed_at = utc 700 }) authorized revising_read revising_critique
      refl refl
