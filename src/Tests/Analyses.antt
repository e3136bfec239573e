-- ===== src/Tests/Analyses.antt =====
-- The theorems about the analysis, at concrete inputs.
use cultureshift.Base.{
  true, false, [], ◌∷◌, none, some, ◌≡◌, refl, nat_eq, string_eq, any, contains,
}
use cultureshift.Base.Result.{ok}
use cultureshift.Domain.{china_to_uk}
use cultureshift.Contracts
use cultureshift.Contracts.{source_ad_valid, brand_lock_valid, ad_analysis_valid}
use cultureshift.Analysis.{
  VisionAnalysisRequest, VisionProvider, AnalysisOutcome, answered, unreadable, fake_provider,
  fixture_result, analyze, provider_result_valid, validate_request, detect_media_type,
  supported_categories, is_closed, is_off_target, analysis_of,
}
use cultureshift.Analysis.Laws.{analyze-safe}
use cultureshift.Tests.Data.{source, lock}

abbrev png_request : VisionAnalysisRequest
png_request = record {
  content = 137 ∷ 80 ∷ 78 ∷ 71 ∷ 13 ∷ 10 ∷ 26 ∷ 10 ∷ 0 ∷ [];
  source_asset = source;
  direction = china_to_uk;
  brand_lock = lock;
  product_category = "ai_software";
  creative_format = "static_ad";
}

-- A provider whose first answer cannot be read.
abbrev repairing : VisionProvider
repairing = fake_provider unreadable (some (answered (fixture_result china_to_uk)))

abbrev repaired : AnalysisOutcome
repaired = record {
  analysis = analysis_of png_request (fixture_result china_to_uk);
  repair_attempted = true;
}

request_accepted : validate_request png_request 50 ≡ ok tt
unfolding validate_request detect_media_type nat_eq string_eq
request_accepted = refl

source_accepted : source_ad_valid source ≡ true
unfolding source_ad_valid nat_eq
source_accepted = refl

lock_accepted : brand_lock_valid lock ≡ true
unfolding brand_lock_valid nat_eq string_eq Contracts.localizable_field_eq
lock_accepted = refl

repaired_run : (analyze repairing png_request 50).0 ≡ ok repaired
unfolding analyze fake_provider detect_media_type provider_result_valid ad_analysis_valid nat_eq
    string_eq Contracts.localizable_field_eq
repaired_run = refl

analyze-safe_example :
    (detect_media_type png_request.content ≡ some "image/png")
    × (contains supported_categories "ai_software" ≡ true)
    × (png_request.creative_format ≡ "static_ad")
    × (is_closed none 50 ≡ false)
    × (ad_analysis_valid repaired.analysis ≡ true)
    × (repaired.analysis.source_asset ≡ source)
    × (repaired.analysis.brand_lock ≡ lock)
    × (any (is_off_target china_to_uk) repaired.analysis.hypotheses ≡ false)
analyze-safe_example = analyze-safe repairing png_request 50 repaired_run
