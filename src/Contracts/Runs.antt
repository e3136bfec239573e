-- ===== src/Contracts/Runs.antt =====
-- contracts.py: requests to create, revise and retry a run, and the public results.
use cultureshift.Base.{
  ℕ, String, Bool, true, ◌&&◌, ◌||◌, not, Option, none, some, List, [], ◌∷◌, Eq, ◌==◌, ◌!=◌,
  string_eq, nat_eq, length, all, differ, is_unique, leb,
}
use cultureshift.Domain.{
  Uuid, LocalizationDirection, china_to_uk, uk_to_china, direction_eq, ProjectRunStatus, ready,
  failed_final, status_eq, is_warning_code,
}
use cultureshift.Contracts.Texts.{
  between, short_text_valid, long_text_valid, locale_eq, ExecutionMode, fixture, execution_mode_eq,
  rendered_ad, asset_kind_eq, AssetRef, asset_ref_eq, asset_ref_valid, source_ad_valid, UtcDatetime,
}
use cultureshift.Contracts.Brand.{
  strings_eq, BrandLock, brand_lock_eq, brand_lock_valid, AdAnalysis, ad_analysis_valid,
  CreativeBrief, creative_brief_valid, AdCopy, ad_copy_valid,
}
use cultureshift.Contracts.Critiques.{
  CritiqueReport, critique_report_valid, reject, critique_status_eq,
}
use cultureshift.Contracts.Compositions.{CompositionGenerated, composition_valid, expected_locale}

-- `RunStatus` has the members and the values of `ProjectRunStatus`.
abbrev pub RunStatus : Type 0
RunStatus = ProjectRunStatus

pub data ProductCategory : Type 0 where
  ai_software ai_application : ProductCategory

pub data CreativeFormat : Type 0 where
  static_ad : CreativeFormat

pub record RunCreate : Type 0 where
  pub direction : LocalizationDirection
  pub execution_mode : ExecutionMode
  pub source_asset : AssetRef
  pub brand_lock : BrandLock
  pub product_category : ProductCategory
  pub creative_format : CreativeFormat

-- `RunCreate(...)` is accepted: `fixture_only_on_day_four`.
unfoldable pub run_create_valid : RunCreate → Bool
unfolding source_ad_valid brand_lock_valid
run_create_valid r =
    source_ad_valid r.source_asset && brand_lock_valid r.brand_lock && r.execution_mode == fixture

pub record ResultVersion : Type 0 where
  pub version : ℕ
  pub analysis : AdAnalysis
  pub brief : CreativeBrief
  pub ad_copy : AdCopy
  pub rendered_asset : Option AssetRef
  pub critique : CritiqueReport
  pub created_at : UtcDatetime

abbrev rendered_valid : Option AssetRef → Bool
rendered_valid none = true
rendered_valid (some a) = asset_ref_valid a && a.kind == rendered_ad

-- `ResultVersion(...)` is accepted: `preserve_cross_artifact_brand_lock`.
unfoldable pub result_version_valid : ResultVersion → Bool
result_version_valid r =
    leb 1 r.version
    && ad_analysis_valid r.analysis
    && creative_brief_valid r.brief
    && ad_copy_valid r.ad_copy
    && critique_report_valid r.critique
    && r.analysis.brand_lock == r.brief.brand_lock
    && r.ad_copy.cta_action_meaning == r.brief.brand_lock.cta_action_meaning
    && rendered_valid r.rendered_asset

pub record DraftGenerated : Type 0 where
  pub run_id : Uuid
  pub brief : CreativeBrief
  pub ad_copy : AdCopy
  pub rule_ids : List String
  pub generated_at : UtcDatetime

abbrev pub expected_rule_ids : LocalizationDirection → List String
expected_rule_ids china_to_uk = "ZEU-S1" ∷ "ZEU-S3" ∷ []
expected_rule_ids uk_to_china = "EZC-S1" ∷ "EZC-S3" ∷ []

-- `preserve_directional_constraints`
unfoldable pub directional_constraints : DraftGenerated → Bool
directional_constraints d =
    d.brief.target_locale == expected_locale d.brief.direction
    && d.ad_copy.locale == expected_locale d.brief.direction
    && d.ad_copy.cta_action_meaning == d.brief.brand_lock.cta_action_meaning
    && d.rule_ids == expected_rule_ids d.brief.direction

-- `DraftGenerated(...)` is accepted.
unfoldable pub draft_generated_valid : DraftGenerated → Bool
draft_generated_valid d =
    creative_brief_valid d.brief
    && ad_copy_valid d.ad_copy
    && between 2 2 (length d.rule_ids)
    && all short_text_valid d.rule_ids
    && directional_constraints d

pub data RevisionChange : Type 0 where
  shorten_headline shorten_body : RevisionChange

unfoldable pub RevisionChange-discrete : Discrete RevisionChange
RevisionChange-discrete = hlevel

instance unfoldable pub revision_change_eq : Eq RevisionChange
unfolding RevisionChange-discrete
revision_change_eq = record { dec = RevisionChange-discrete }

pub record FeedbackRequest : Type 0 where
  pub run_id : Uuid
  pub feedback : String
  pub requested_changes : List RevisionChange
  pub submitted_at : UtcDatetime

-- `FeedbackRequest(...)` is accepted: `require_unique_changes`.
unfoldable pub feedback_request_valid : FeedbackRequest → Bool
feedback_request_valid f =
    long_text_valid f.feedback
    && between 1 2 (length f.requested_changes)
    && is_unique f.requested_changes

pub data ReasonCategory : Type 0 where
  validation generation review : ReasonCategory

pub record RetryRequest : Type 0 where
  pub run_id : Uuid
  pub reason_category : ReasonCategory

pub record RevisionCompleted : Type 0 where
  pub run_id : Uuid
  pub status : RunStatus
  pub previous_composition : CompositionGenerated
  pub brief : CreativeBrief
  pub ad_copy : AdCopy
  pub composition : CompositionGenerated
  pub critique : CritiqueReport
  pub technical_attempt_count : ℕ
  pub revised_at : UtcDatetime

-- `preserve_revision_identity`
unfoldable pub revision_identity : RevisionCompleted → Bool
revision_identity r =
    r.previous_composition.run_id == r.run_id
    && r.composition.run_id == r.run_id
    && r.previous_composition.artifact_id != r.composition.artifact_id
    && r.ad_copy.locale == r.brief.target_locale
    && r.ad_copy.cta_action_meaning == r.brief.brand_lock.cta_action_meaning
    && not (differ (r.critique.status == reject) (r.status == failed_final))

-- `RevisionCompleted(...)` is accepted. The literal `result_version`, `initial_generation_count`
-- and `human_revision_count` are left out of the record.
unfoldable pub revision_completed_valid : RevisionCompleted → Bool
revision_completed_valid r =
    (r.status == ready || r.status == failed_final)
    && composition_valid r.previous_composition
    && creative_brief_valid r.brief
    && ad_copy_valid r.ad_copy
    && composition_valid r.composition
    && critique_report_valid r.critique
    && revision_identity r

pub record ProjectRunContract : Type 0 where
  pub run_id : Uuid
  pub request : RunCreate
  pub status : RunStatus
  pub result_versions : List ResultVersion
  pub warning_codes : List String
  pub created_at : UtcDatetime
  pub updated_at : UtcDatetime

abbrev tied_to : RunCreate → ResultVersion → Bool
tied_to q r =
    r.analysis.brand_lock == q.brand_lock
    && r.analysis.source_asset == q.source_asset
    && r.brief.direction == q.direction
    && r.ad_copy.cta_action_meaning == q.brand_lock.cta_action_meaning

-- `ProjectRunContract(...)` is accepted: `tie_results_to_original_request`.
unfoldable pub project_run_contract_valid : ProjectRunContract → Bool
project_run_contract_valid p =
    run_create_valid p.request
    && between 0 64 (length p.result_versions)
    && all result_version_valid p.result_versions
    && between 0 32 (length p.warning_codes)
    && all is_warning_code p.warning_codes
    && all (tied_to p.request) p.result_versions
