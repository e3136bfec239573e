-- ===== src/Tests/Stories/Stores.antt =====
-- Compositions, exports and uploads, and their theorems at them.
use cultureshift.Base.{
  ℕ, String, true, false, List, [], ◌∷◌, ◌++◌, Option, none, some, ◌≡◌, refl, arith, nat_eq,
  string_eq, codes_eq, length,
}
use cultureshift.Base
use cultureshift.Base.Int
use cultureshift.Base.Result.{ok, err}
use cultureshift.Domain.{utc}
use cultureshift.Contracts
use cultureshift.Contracts.{AssetUploaded, AssetRef}
use cultureshift.Analysis
use cultureshift.Capabilities
use cultureshift.Capabilities.{Capability, capability_eq, issue, signature, Payload, Codec}
use cultureshift.Capabilities.Base64
use cultureshift.RateLimits
use cultureshift.RateLimits.{Limiter, LimiterError}
use cultureshift.Repository.Reads
use cultureshift.Repository.Calls.{Call, perform_all}
use cultureshift.Revising.Session.{World, Studio, technical}
use cultureshift.Compositions as Service
use cultureshift.Compositions.{generate}
use cultureshift.Compositions.Drawing
use cultureshift.Compositions.Replay.{generate-replay, with_store}
use cultureshift.Compositions.Exports.{
  ExportedComposition, first, export_png, summary, has_digest, is_canvas, export_png-intact,
}
use cultureshift.Storage
use cultureshift.Storage.{key_eq}
use cultureshift.Storage.Memory.{Memory, memory, memory-Behaves}
use cultureshift.Storage.Compositions
use cultureshift.Storage.Compositions.{
  Format, StoredCompositionArtifact, LoadedCompositionArtifact, record_of, save,
}
use cultureshift.Storage.Images.{load-save}
use cultureshift.Storage.Assets
use cultureshift.Storage.Assets.{AssetFormat, StoredAsset, LoadedAsset, stored_asset, closed}
use cultureshift.Storage.Lifecycle.{is_stored}
use cultureshift.Application
use cultureshift.Application.{Server, uuid_text, authorize}
use cultureshift.Application.Tokens.{authorize-issue, bearer_header}
use cultureshift.Application.Uploads
use cultureshift.Application.Uploads.{Assets, Upload, upload_asset, delete_asset}
use cultureshift.Application.Uploads.Laws.{load-upload_asset, delete_asset-closes}
use cultureshift.Tests.Data.{digest, run, request, analysis, lock, draft, composition, report}
use cultureshift.Tests.Stories
use cultureshift.Tests.Stories.Studio.{studio}
use cultureshift.Tests.Stories.Requests.{server, export, codec, service, inputs}

-- A run with a draft, and the images of its studio.
abbrev drafted : World (List ℕ)
drafted = record {
  database = Stories.after (
      Call.create run (some request)
      ∷ Call.claim_analysis 1 (utc 200)
      ∷ Call.complete_analysis 1 analysis false (utc 300)
      ∷ Call.confirm_brand_lock 1 lock (utc 400)
      ∷ Call.save_draft 1 draft
      ∷ []);
  store = [];
}

composed : (generate studio 1 inputs drafted).0 ≡ ok (composition 30)
unfolding Stories.machine generate Service.generate_new Service.read_ready Service.persist
    Drawing.draw Reads.get_analysis Reads.get_draft Reads.get_confirmed_brand_lock
    Reads.get_composition Contracts.composition_valid Contracts.background_request_valid
    Contracts.execution_mode_eq Contracts.locale_eq Contracts.guardrails_eq Int.int_eq
    Contracts.layer_kinds_eq
composed = refl

-- A service whose providers fail, and what other clients did meanwhile.
abbrev failing : Studio (List ℕ)
failing = record studio { generate_background = λ r. err technical; compose = λ r. err technical }

abbrev meanwhile : List Call
meanwhile = Call.save_critique 1 report ∷ Call.save_composition 1 (composition 99) ∷ []

generate-replay_example :
    let db = perform_all meanwhile (generate studio 1 inputs drafted).1.database in
    let later = with_store {Store = List ℕ} (30 ∷ []) db in
    generate failing 1 (record inputs { artifact_id = 99 }) later ≡ (ok (composition 30), later)
generate-replay_example =
    generate-replay studio failing 1 inputs (record inputs { artifact_id = 99 }) meanwhile drafted
      (30 ∷ []) (composition 30) composed

abbrev reviewed : World (List ℕ)
reviewed = record { database = Stories.after Stories.reviewed; store = [] }

abbrev exported : ExportedComposition
exported = record { png_bytes = 137 ∷ []; sha256 = digest; size_bytes = 1 }

exported_image : (export_png export 1 first reviewed).0 ≡ ok exported
unfolding Stories.machine export_png summary Reads.get_composition
exported_image = refl

export_png-intact_example :
    (has_digest digest (summary {Store = List ℕ} 1 first reviewed).0 ≡ true)
    × (1 ≡ length exported.png_bytes)
    × (is_canvas (export.read_image exported.png_bytes) ≡ true)
export_png-intact_example = export_png-intact export 1 first reviewed exported exported_image

abbrev nothing : Memory
nothing k = none

abbrev pub image : List ℕ
image = 137 ∷ 80 ∷ 78 ∷ 71 ∷ 13 ∷ 10 ∷ 26 ∷ 10 ∷ 0 ∷ []

abbrev kept : StoredCompositionArtifact
kept = record { artifact_id = 30; sha256 = digest; size_bytes = 9; expires_at = 900 }

abbrev pub format : Format
format = record { sha256 = λ bytes. digest; write = λ r. 1 ∷ []; read = λ text. some kept }

saved : (save memory format 1000 30 image 900 100 nothing).0 ≡ ok kept
unfolding save memory Compositions.load nat_eq Compositions.stored_eq key_eq codes_eq string_eq
    Storage.Suffix-discrete
saved = refl

load-save_example :
    Compositions.load memory format 1000 30 200 true
      (save memory format 1000 30 image 900 100 nothing).1
    ≡ ok (record { stored = kept; png_bytes = image })
load-save_example =
    load-save memory format 1000 30 image 900 100 200 nothing kept memory-Behaves refl (omega arith)
      saved (omega arith)

abbrev upload : Upload
upload = record {
  client = "127.0.0.1";
  chunks = (137 ∷ 80 ∷ 78 ∷ 71 ∷ []) ∷ (13 ∷ 10 ∷ 26 ∷ 10 ∷ 0 ∷ []) ∷ [];
  media_type = "image/png";
  provenance_ref = "fixture:orbit";
  rights_ref = "rights:orbit";
}

abbrev uploaded : AssetRef
uploaded = record {
  asset_id = 10;
  kind = Contracts.source_ad;
  media_type = "image/png";
  sha256 = digest;
  provenance_ref = "fixture:orbit";
  rights_ref = "rights:orbit";
  expires_at = some 86400000100;
}

abbrev metadata : StoredAsset
metadata = record { asset = uploaded; size_bytes = 9; created_at = 100 }

abbrev pub asset_format : AssetFormat
asset_format = record {
  sha256 = λ bytes. digest;
  strip = λ s. s;
  write = λ r. 2 ∷ [];
  read = λ text. some metadata;
  read_media_type = λ text. some "image/png";
  tombstone = λ at reason. 3 ∷ [];
}

abbrev assets : Assets Memory
assets = record {
  limiter = record { limit = 10; window = 60000000; entries = λ k. none };
  objects = nothing;
}

abbrev delete_token : List ℕ
delete_token =
    Base64.encode (
      codec.dumps (
        Capabilities.payload_for codec service (uuid_text 10) (Capability.delete_asset ∷ [])
          86400000000 100))
    ++ (b'.'
        ∷ signature codec service (
            Base64.encode (
              codec.dumps (
                Capabilities.payload_for codec service (uuid_text 10) (Capability.delete_asset ∷ [])
                  86400000000 100))))

abbrev answer : AssetUploaded
answer = record {
  asset = uploaded;
  size_bytes = 9;
  created_at = 100;
  delete_capability_token = delete_token;
}

answered : (upload_asset server memory asset_format 100 10 upload assets).0 ≡ ok answer
unfolding upload_asset RateLimits.allow Uploads.gather Assets.store string_eq
    Analysis.detect_media_type nat_eq Contracts.public_reference_valid Contracts.source_ad_valid
    memory Assets.write_asset key_eq Storage.Suffix-discrete issue uuid_text
    Contracts.asset_uploaded_valid Base64.encode
answered = refl

load-upload_asset_example :
    Assets.load memory asset_format 10 5000
      (upload_asset server memory asset_format 100 10 upload assets).1.objects
    ≡ ok (record { asset = uploaded; content = image })
load-upload_asset_example =
    load-upload_asset server memory asset_format 100 10 upload assets answer 5000 memory-Behaves
      refl (omega arith) answered (omega arith) (omega arith)

-- A service whose tokens are for the asset.
abbrev asset_codec : Codec
asset_codec = record codec {
  loads = λ text. some (
      Capabilities.payload_for codec service (uuid_text 10) (Capability.delete_asset ∷ [])
        86400000000 100);
}

abbrev asset_server : Server (List ℕ)
asset_server = record server { codec = asset_codec }

issued :
    issue asset_codec service (uuid_text 10) (Capability.delete_asset ∷ []) 86400000000 (utc 100)
    ≡ ok delete_token
unfolding issue capability_eq uuid_text Application.hex_digits nat_eq
issued = refl

permitted :
    authorize asset_server Capability.delete_asset 10 (bearer_header delete_token) 200 ≡ ok tt
unfolding capability_eq codes_eq uuid_text Base.ℕ_discrete
permitted =
    authorize-issue asset_server 10 10 (Capability.delete_asset ∷ []) 86400000000 (utc 100)
      delete_token Capability.delete_asset 200 refl refl issued refl (omega arith)

deleted :
    (delete_asset asset_server memory asset_format 200 10 (bearer_header delete_token) assets).0
    ≡ ok tt
unfolding delete_asset Assets.delete memory
deleted = rw (permitted) refl

delete_asset-closes_example :
    let after =
      (delete_asset asset_server memory asset_format 200 10
        (bearer_header delete_token)
        assets).1.objects in
    let again =
      Assets.store memory asset_format 10 image "image/png" "fixture:orbit" "rights:orbit" 300
        after in
    (Assets.load memory asset_format 10 300 after ≡ err closed)
    × (is_stored again.0 ≡ false)
    × (again.1 ≡ after)
delete_asset-closes_example =
    delete_asset-closes asset_server memory asset_format 200 10 (bearer_header delete_token) assets
      300 image "image/png" "fixture:orbit" "rights:orbit" memory-Behaves (omega arith) deleted
