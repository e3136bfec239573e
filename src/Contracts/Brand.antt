-- ===== src/Contracts/Brand.antt =====
-- contracts.py: Brand Lock, cultural hypotheses, the analysis, the brief and the copy.
use cultureshift.Base.{
  String, Bool, ◌&&◌, List, Eq, string_eq, nat_eq, string_discrete, ℕ_discrete, length, all,
  is_unique,
}
use cultureshift.Domain.{Uuid, LocalizationDirection, is_warning_code}
use cultureshift.Contracts.Texts.{
  between, short_text_valid, long_text_valid, public_reference_valid, Market, Market-discrete,
  Locale, AssetRef, AssetRef-discrete, source_ad_valid,
}

pub data Uncertainty : Type 0 where
  low medium high : Uncertainty

pub data ReviewStatus : Type 0 where
  pending accepted rejected : ReviewStatus

unfoldable pub ReviewStatus-discrete : Discrete ReviewStatus
ReviewStatus-discrete = hlevel

instance unfoldable pub review_status_eq : Eq ReviewStatus
unfolding ReviewStatus-discrete
review_status_eq = record { dec = ReviewStatus-discrete }

pub record CulturalHypothesis : Type 0 where
  pub hypothesis_id : Uuid
  pub target_market : Market
  pub claim : String
  pub evidence_refs : List String
  pub uncertainty : Uncertainty
  pub rationale : String
  pub validation_requirements : List String
  pub review_status : ReviewStatus

unfoldable pub CulturalHypothesis-discrete : Discrete CulturalHypothesis
unfolding Market-discrete ReviewStatus-discrete
CulturalHypothesis-discrete = hlevel (ℕ_discrete, string_discrete)

unfoldable pub hypothesis_valid : CulturalHypothesis → Bool
unfolding long_text_valid public_reference_valid short_text_valid
hypothesis_valid h =
    long_text_valid h.claim
    && between 1 32 (length h.evidence_refs)
    && all public_reference_valid h.evidence_refs
    && long_text_valid h.rationale
    && between 1 16 (length h.validation_requirements)
    && all short_text_valid h.validation_requirements

pub data LocalizableField : Type 0 where
  narrative use_scenario trust_information language : LocalizableField

unfoldable pub LocalizableField-discrete : Discrete LocalizableField
LocalizableField-discrete = hlevel

instance unfoldable pub localizable_field_eq : Eq LocalizableField
unfolding LocalizableField-discrete
localizable_field_eq = record { dec = LocalizableField-discrete }

pub record BrandLock : Type 0 where
  pub logo_asset_id : Uuid
  pub product_name : String
  pub verified_product_facts : List String
  pub product_ui_asset_ids : List Uuid
  pub benefit_order : List String
  pub cta_action_meaning : String
  pub layout_template_asset_id : Uuid
  pub localizable_fields : List LocalizableField

unfoldable pub BrandLock-discrete : Discrete BrandLock
BrandLock-discrete = hlevel (ℕ_discrete, string_discrete)

instance unfoldable pub brand_lock_eq : Eq BrandLock
unfolding BrandLock-discrete ℕ_discrete string_discrete
brand_lock_eq = record { dec = BrandLock-discrete }

-- Equality of tuples of texts and of identifiers.
unfoldable pub Strings-discrete : Discrete (List String)
Strings-discrete = hlevel string_discrete

instance unfoldable pub strings_eq : Eq (List String)
unfolding Strings-discrete string_discrete
strings_eq = record { dec = Strings-discrete }

unfoldable pub Uuids-discrete : Discrete (List Uuid)
Uuids-discrete = hlevel ℕ_discrete

instance unfoldable pub uuids_eq : Eq (List Uuid)
unfolding Uuids-discrete ℕ_discrete
uuids_eq = record { dec = Uuids-discrete }

-- `require_unique_sequences`
unfoldable pub sequences_unique : BrandLock → Bool
sequences_unique l =
    is_unique l.verified_product_facts
    && is_unique l.product_ui_asset_ids
    && is_unique l.benefit_order
    && is_unique l.localizable_fields

unfoldable pub brand_lock_valid : BrandLock → Bool
unfolding short_text_valid sequences_unique
brand_lock_valid l =
    short_text_valid l.product_name
    && between 1 32 (length l.verified_product_facts)
    && all short_text_valid l.verified_product_facts
    && between 1 16 (length l.product_ui_asset_ids)
    && between 1 16 (length l.benefit_order)
    && all short_text_valid l.benefit_order
    && short_text_valid l.cta_action_meaning
    && between 1 4 (length l.localizable_fields)
    && sequences_unique l

pub record AdAnalysis : Type 0 where
  pub source_asset : AssetRef
  pub detected_locale : Locale
  pub brand_lock : BrandLock
  pub hypotheses : List CulturalHypothesis
  pub warnings : List String

unfoldable pub AdAnalysis-discrete : Discrete AdAnalysis
AdAnalysis-discrete = hlevel (
  ℕ_discrete, string_discrete, AssetRef-discrete, BrandLock-discrete, CulturalHypothesis-discrete,
)

unfoldable pub ad_analysis_valid : AdAnalysis → Bool
unfolding source_ad_valid brand_lock_valid hypothesis_valid is_warning_code
ad_analysis_valid a =
    source_ad_valid a.source_asset
    && brand_lock_valid a.brand_lock
    && between 0 32 (length a.hypotheses)
    && all hypothesis_valid a.hypotheses
    && between 0 32 (length a.warnings)
    && all is_warning_code a.warnings

pub record CreativeBrief : Type 0 where
  pub direction : LocalizationDirection
  pub target_locale : Locale
  pub brand_lock : BrandLock
  pub hypotheses : List CulturalHypothesis
  pub narrative : String
  pub use_scenario : String
  pub trust_information : String

unfoldable pub CreativeBrief-discrete : Discrete CreativeBrief
CreativeBrief-discrete = hlevel (string_discrete, BrandLock-discrete, CulturalHypothesis-discrete)

instance unfoldable pub creative_brief_eq : Eq CreativeBrief
unfolding CreativeBrief-discrete
creative_brief_eq = record { dec = CreativeBrief-discrete }

unfoldable pub creative_brief_valid : CreativeBrief → Bool
unfolding brand_lock_valid hypothesis_valid long_text_valid
creative_brief_valid b =
    brand_lock_valid b.brand_lock
    && between 0 32 (length b.hypotheses)
    && all hypothesis_valid b.hypotheses
    && long_text_valid b.narrative
    && long_text_valid b.use_scenario
    && long_text_valid b.trust_information

pub record AdCopy : Type 0 where
  pub locale : Locale
  pub headline : String
  pub body : String
  pub cta_label : String
  pub cta_action_meaning : String

unfoldable pub AdCopy-discrete : Discrete AdCopy
AdCopy-discrete = hlevel string_discrete

instance unfoldable pub ad_copy_eq : Eq AdCopy
unfolding AdCopy-discrete
ad_copy_eq = record { dec = AdCopy-discrete }

unfoldable pub ad_copy_valid : AdCopy → Bool
unfolding short_text_valid long_text_valid
ad_copy_valid c =
    short_text_valid c.headline
    && long_text_valid c.body
    && short_text_valid c.cta_label
    && short_text_valid c.cta_action_meaning
