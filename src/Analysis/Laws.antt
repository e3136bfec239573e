-- ===== src/Analysis/Laws.antt =====
-- What an analysis guarantees, whatever the provider does, and how often it is called.
use cultureshift.Base.{
  Bool, true, false, [], ◌∷◌, some, ◌≡◌, ◌≢◌, ◌↔◌, refl, arith, any, contains, string_eq, nat_eq,
}
use cultureshift.Base.Result.{Result, ok, err}
use cultureshift.Contracts.{UtcDatetime, ad_analysis_valid, source_ad_valid, brand_lock_valid}
use cultureshift.Analysis.{
  AnalysisError, AnalysisOutcome, provider_output_invalid, analysis_refused, initial, repair,
  VisionProvider, VisionAnalysisRequest, VisionProviderResult, analyze, call_provider, read_answer,
  Answer, unreadable, answered, validate_request, validate_result, detect_media_type, is_closed,
  is_off_target, analysis_of, fixture_provider, fixture_result, provider_result_valid, raised,
  supported_categories,
}

-- Whatever the provider does: an analysis is returned only for content of the declared media type, in
-- scope and before the asset expires; it is valid and carries the request's asset and Brand Lock, and
-- each of its hypotheses is pending and about the target market.
pub analyze-safe :
    (provider : VisionProvider) (request : VisionAnalysisRequest) (now : UtcDatetime)
    {o : AnalysisOutcome}
    → (analyze provider request now).0 ≡ ok o
    → (detect_media_type request.content ≡ some request.source_asset.media_type)
      × (contains supported_categories request.product_category ≡ true)
      × (request.creative_format ≡ "static_ad")
      × (is_closed request.source_asset.expires_at now ≡ false)
      × (ad_analysis_valid o.analysis ≡ true)
      × (o.analysis.source_asset ≡ request.source_asset)
      × (o.analysis.brand_lock ≡ request.brand_lock)
      × (any (is_off_target request.direction) o.analysis.hypotheses ≡ false)
unfolding analyze validate_request validate_result
analyze-safe provider request now {o} e = ground arith

-- The provider is asked for a repair exactly if the request was accepted and its first answer had an
-- invalid form (not if the call failed), and is never called for a request that is refused.
pub analyze-attempts :
    (provider : VisionProvider) (request : VisionAnalysisRequest) (now : UtcDatetime)
    → (((analyze provider request now).1 ≡ initial ∷ repair ∷ []) ↔ (
        (validate_request request now ≡ ok tt)
        × (call_provider provider request initial ≡ err provider_output_invalid)))
      × (((analyze provider request now).1 ≡ []) ↔ (validate_request request now ≢ ok tt))
unfolding analyze
analyze-attempts provider request now = ground arith

-- An outcome tells that a repair was attempted exactly if the provider was called twice.
pub analyze-repair_attempted :
    (provider : VisionProvider) (request : VisionAnalysisRequest) (now : UtcDatetime)
    {o : AnalysisOutcome}
    → (analyze provider request now).0 ≡ ok o
    → (o.repair_attempted ≡ true) ↔ ((analyze provider request now).1 ≡ initial ∷ repair ∷ [])
unfolding analyze
analyze-repair_attempted provider request now {o} e = ground arith

-- What a call of the provider gives leads to a valid analysis, if to any.
abbrev accepts : VisionAnalysisRequest → Result AnalysisError VisionProviderResult → Bool
accepts request (ok r) = ad_analysis_valid (analysis_of request r)
accepts request (err analysis_refused) = false
accepts request (err e) = true

analysis_of-valid :
    (request : VisionAnalysisRequest) (r : VisionProviderResult)
    → source_ad_valid request.source_asset ≡ true
    → brand_lock_valid request.brand_lock ≡ true
    → provider_result_valid r ≡ true
    → ad_analysis_valid (analysis_of request r) ≡ true
unfolding ad_analysis_valid provider_result_valid
analysis_of-valid request r a l v = ground arith

read_answer-accepts :
    (request : VisionAnalysisRequest) (answer : Answer)
    → source_ad_valid request.source_asset ≡ true
    → brand_lock_valid request.brand_lock ≡ true
    → accepts request (read_answer answer) ≡ true
unfolding read_answer
read_answer-accepts request raised a l = refl
read_answer-accepts request unreadable a l = refl
read_answer-accepts request (answered r) a l = ground (arith, analysis_of-valid request r a l)

-- With a valid asset and a valid Brand Lock, every failure is one of the pipeline's own codes: the
-- construction of the analysis never raises, whatever the provider does.
pub analyze-accepted :
    (provider : VisionProvider) (request : VisionAnalysisRequest) (now : UtcDatetime)
    → source_ad_valid request.source_asset ≡ true
    → brand_lock_valid request.brand_lock ≡ true
    → (analyze provider request now).0 ≢ err analysis_refused
unfolding analyze validate_request validate_result call_provider
analyze-accepted provider request now a l = ground (
  arith,
  read_answer-accepts request (provider request initial) a l,
  read_answer-accepts request (provider request repair) a l,
)

-- The fixture provider analyzes every accepted request of a valid asset and a valid Brand Lock at the
-- first attempt: it gives the source language of the direction and its two warnings.
pub analyze-fixture :
    (request : VisionAnalysisRequest) (now : UtcDatetime)
    → validate_request request now ≡ ok tt
    → source_ad_valid request.source_asset ≡ true
    → brand_lock_valid request.brand_lock ≡ true
    → analyze fixture_provider request now ≡ (
      ok (record {
        analysis = analysis_of request (fixture_result request.direction);
        repair_attempted = false;
      }),
      initial ∷ [],
    )
unfolding analyze fixture_provider call_provider read_answer validate_result provider_result_valid
    ad_analysis_valid nat_eq string_eq
analyze-fixture request now v a l = ground arith
