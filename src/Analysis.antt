-- ===== src/Analysis.antt =====
-- cultureshift/analysis_pipeline.py, with the provider's protocol and the two providers of
-- analysis_provider.py: the analysis of a source ad, with one repair of an unreadable answer.
pub mod Laws
use cultureshift.Base.{
  ℕ, String, Bool, true, false, not, ◌&&◌, ◌||◌, List, [], ◌∷◌, ◌++◌, Option, none, some, Eq, ◌==◌,
  ◌!=◌, string_eq, nat_eq, leb, length, all, any, contains, if◌then◌else◌,
}
use cultureshift.Base.Result.{Result, ok, err}
use cultureshift.Domain.{LocalizationDirection, china_to_uk, uk_to_china, is_warning_code}
use cultureshift.Contracts.{
  between, UtcDatetime, AssetRef, BrandLock, Locale, zh_cn, en_gb, Market, market_eq,
  CulturalHypothesis, ReviewStatus, review_status_eq, hypothesis_valid, AdAnalysis,
  ad_analysis_valid,
}

-- `AnalysisErrorCode`, and pydantic's refusal of the analysis, which is not caught.
pub data AnalysisError : Type 0 where
  invalid_input unsupported_scope asset_closed provider_failed : AnalysisError
  provider_output_invalid instruction_like_content prohibited_content unsafe_hypothesis :
      AnalysisError
  analysis_refused : AnalysisError

pub data Attempt : Type 0 where
  initial repair : Attempt

pub record VisionAnalysisRequest : Type 0 where
  pub content : List ℕ
  pub source_asset : AssetRef
  pub direction : LocalizationDirection
  pub brand_lock : BrandLock
  pub product_category : String
  pub creative_format : String

pub record VisionProviderResult : Type 0 where
  pub detected_locale : Locale
  pub hypotheses : List CulturalHypothesis
  pub warnings : List String
  pub instruction_like_content_detected : Bool
  pub prohibited_content_detected : Bool

-- What a call of a provider gives: an exception, an object that lacks the fields of a result, or one
-- that has them.
pub data Answer : Type 0 where
  raised unreadable : Answer
  answered : VisionProviderResult → Answer

abbrev pub VisionProvider : Type 0
VisionProvider = VisionAnalysisRequest → Attempt → Answer

pub record AnalysisOutcome : Type 0 where
  pub analysis : AdAnalysis
  pub repair_attempted : Bool

-- `data.startswith(prefix)`
abbrev pub starts_with : List ℕ → List ℕ → Bool
starts_with bytes [] = true
starts_with [] (p ∷ ps) = false
starts_with (b ∷ bs) (p ∷ ps) = b == p && starts_with bs ps

abbrev reversed : List ℕ → List ℕ → List ℕ
reversed [] done = done
reversed (b ∷ bs) done = reversed bs (b ∷ done)

-- `data.endswith(suffix)`
abbrev ends_with : List ℕ → List ℕ → Bool
ends_with bytes suffix = starts_with (reversed bytes []) (reversed suffix [])

abbrev pub png_signature : List ℕ
png_signature = 137 ∷ 80 ∷ 78 ∷ 71 ∷ 13 ∷ 10 ∷ 26 ∷ 10 ∷ []

unfoldable pub detect_media_type : List ℕ → Option String
detect_media_type bytes =
    if starts_with bytes png_signature
    then some "image/png"
    else if starts_with bytes (255 ∷ 216 ∷ 255 ∷ []) && ends_with bytes (255 ∷ 217 ∷ [])
    then some "image/jpeg"
    else none

abbrev supported_media_types : List String
supported_media_types = "image/png" ∷ "image/jpeg" ∷ []

abbrev pub supported_categories : List String
supported_categories = "ai_software" ∷ "ai_application" ∷ []

abbrev media_refused : Option String → String → Bool
media_refused none declared = true
media_refused (some detected) declared =
    not (contains supported_media_types detected) || detected != declared

abbrev pub is_closed : Option UtcDatetime → UtcDatetime → Bool
is_closed none now = false
is_closed (some t) now = leb t now

-- `SafetyGate.validate_request`
unfoldable pub validate_request :
    VisionAnalysisRequest → UtcDatetime → Result AnalysisError (Unit {0})
validate_request request now =
    if media_refused (detect_media_type request.content) request.source_asset.media_type
    then err invalid_input
    else if not (contains supported_categories request.product_category)
        || request.creative_format != "static_ad"
    then err unsupported_scope
    else if is_closed request.source_asset.expires_at now
    then err asset_closed
    else ok tt

abbrev pub expected_market : LocalizationDirection → Market
expected_market china_to_uk = Market.united_kingdom
expected_market uk_to_china = Market.china

abbrev pub is_off_target : LocalizationDirection → CulturalHypothesis → Bool
is_off_target direction h =
    h.review_status != ReviewStatus.pending || h.target_market != expected_market direction

-- `SafetyGate.validate_result`
unfoldable pub validate_result :
    VisionAnalysisRequest → VisionProviderResult → Result AnalysisError (Unit {0})
validate_result request r =
    if r.instruction_like_content_detected
    then err instruction_like_content
    else if r.prohibited_content_detected
    then err prohibited_content
    else if any (is_off_target request.direction) r.hypotheses
    then err unsafe_hypothesis
    else ok tt

-- `VisionProviderResult.model_validate` accepts the fields.
unfoldable pub provider_result_valid : VisionProviderResult → Bool
unfolding hypothesis_valid is_warning_code
provider_result_valid r =
    between 0 32 (length r.hypotheses)
    && all hypothesis_valid r.hypotheses
    && between 0 32 (length r.warnings)
    && all is_warning_code r.warnings

-- What the answer gives: `_validate_provider_result`, or the failure of `_call_provider`.
unfoldable pub read_answer : Answer → Result AnalysisError VisionProviderResult
read_answer raised = err provider_failed
read_answer unreadable = err provider_output_invalid
read_answer (answered r) = if provider_result_valid r then ok r else err provider_output_invalid

-- `_validate_provider_result(_call_provider(request, attempt))`
unfoldable pub call_provider :
    VisionProvider → VisionAnalysisRequest → Attempt → Result AnalysisError VisionProviderResult
unfolding read_answer
call_provider provider request attempt = read_answer (provider request attempt)

abbrev pub analysis_of : VisionAnalysisRequest → VisionProviderResult → AdAnalysis
analysis_of request r = record {
  source_asset = request.source_asset;
  detected_locale = r.detected_locale;
  brand_lock = request.brand_lock;
  hypotheses = r.hypotheses;
  warnings = r.warnings;
}

-- The end of `analyze`, once a result was read.
abbrev conclude :
    VisionAnalysisRequest → Bool → VisionProviderResult → Result AnalysisError AnalysisOutcome
conclude request repair_attempted r = elim (validate_result request r) [
  | err e ↦ err e
  | ok _ ↦
      if ad_analysis_valid (analysis_of request r)
      then ok (record { analysis = analysis_of request r; repair_attempted = repair_attempted })
      else err analysis_refused
]

abbrev concluded :
    VisionAnalysisRequest
    → Bool
    → Result AnalysisError VisionProviderResult
    → Result AnalysisError AnalysisOutcome
concluded request repair_attempted (ok r) = conclude request repair_attempted r
concluded request repair_attempted (err e) = err e

-- The first answer, and the calls that it leads to: only an invalid output is repaired.
abbrev after_first :
    VisionProvider
    → VisionAnalysisRequest
    → Result AnalysisError VisionProviderResult
    → Result AnalysisError AnalysisOutcome × List Attempt
after_first provider request (ok r) = (conclude request false r, initial ∷ [])
after_first provider request (err provider_output_invalid) =
    (concluded request true (call_provider provider request repair), initial ∷ repair ∷ [])
after_first provider request (err e) = (err e, initial ∷ [])

-- `AnalysisPipeline.analyze`, with the attempts that it makes of the provider.
unfoldable pub analyze :
    VisionProvider
    → VisionAnalysisRequest
    → UtcDatetime
    → Result AnalysisError AnalysisOutcome × List Attempt
unfolding call_provider validate_request validate_result
analyze provider request now = elim (validate_request request now) [
  | err e ↦ (err e, [])
  | ok _ ↦ after_first provider request (call_provider provider request initial)
]

-- `FakeProvider.analyze`; a repair result that is not given is the first one.
unfoldable pub fake_provider : Answer → Option Answer → VisionProvider
fake_provider result (some again) request repair = again
fake_provider result _ request attempt = result

abbrev pub source_locale : LocalizationDirection → Locale
source_locale china_to_uk = zh_cn
source_locale uk_to_china = en_gb

abbrev pub fixture_result : LocalizationDirection → VisionProviderResult
fixture_result direction = record {
  detected_locale = source_locale direction;
  hypotheses = [];
  warnings = "fixture_provider" ∷ "human_review_required" ∷ [];
  instruction_like_content_detected = false;
  prohibited_content_detected = false;
}

-- `FixtureProvider.analyze`
unfoldable pub fixture_provider : VisionProvider
fixture_provider request attempt = answered (fixture_result request.direction)
