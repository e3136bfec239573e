-- ===== src/Tests/Data.antt =====
-- A run of the Orbit AI fixture from China to the UK.
use cultureshift.Base.{ℕ, String, true, false, List, [], ◌∷◌, Option, none, some}
use cultureshift.Base.Int.{pos}
use cultureshift.Domain.{utc, ProjectRun, pending, ready, china_to_uk}
use cultureshift.Contracts.{
  AssetRef, AssetKind, BrandLock, LocalizableField, AdAnalysis, CulturalHypothesis, Market,
  Uncertainty, ReviewStatus, zh_cn, en_gb, RunCreate, ExecutionMode, ProductCategory,
  CreativeFormat, AdCopy, CreativeBrief, CompositionLayer, CompositionLayerKind,
  CompositionGenerated, CritiqueReport, CritiqueStatus, RevisionCompleted, RevisionChange,
}
use cultureshift.Repository.State.{DraftRecord, RevisionRecord}

abbrev pub digest : String
digest = "0123456789abcdef0123456789abcdef0123456789abcdef0123456789abcdef"

abbrev pub source : AssetRef
source = record {
  asset_id = 10;
  kind = AssetKind.source_ad;
  media_type = "image/png";
  sha256 = digest;
  provenance_ref = "fixture:orbit";
  rights_ref = "rights:orbit";
  expires_at = none;
}

abbrev pub lock : BrandLock
lock = record {
  logo_asset_id = 11;
  product_name = "Orbit AI";
  verified_product_facts = "organises notes" ∷ "works offline" ∷ [];
  product_ui_asset_ids = 12 ∷ [];
  benefit_order = "clarity" ∷ "speed" ∷ [];
  cta_action_meaning = "start the demo";
  layout_template_asset_id = 13;
  localizable_fields = LocalizableField.narrative ∷ LocalizableField.language ∷ [];
}

abbrev pub request : RunCreate
request = record {
  direction = china_to_uk;
  execution_mode = ExecutionMode.fixture;
  source_asset = source;
  brand_lock = lock;
  product_category = ProductCategory.ai_software;
  creative_format = CreativeFormat.static_ad;
}

abbrev pub run : ProjectRun
run = record {
  id = 1;
  direction = china_to_uk;
  status = pending;
  warning_codes = [];
  initial_generation_count = 0;
  human_revision_count = 0;
  technical_attempt_count = 0;
  created_at = utc 100;
  updated_at = utc 100;
}

abbrev pub hypothesis : CulturalHypothesis
hypothesis = record {
  hypothesis_id = 20;
  target_market = Market.united_kingdom;
  claim = "Reviewers prefer a plain tone";
  evidence_refs = "evidence:tone" ∷ [];
  uncertainty = Uncertainty.high;
  rationale = "Observed in one study";
  validation_requirements = "local review" ∷ [];
  review_status = ReviewStatus.pending;
}

abbrev pub analysis : AdAnalysis
analysis = record {
  source_asset = source;
  detected_locale = zh_cn;
  brand_lock = lock;
  hypotheses = hypothesis ∷ [];
  warnings = [];
}

abbrev pub brief : CreativeBrief
brief = record {
  direction = china_to_uk;
  target_locale = en_gb;
  brand_lock = lock;
  hypotheses = hypothesis ∷ [];
  narrative = "A reviewable workflow";
  use_scenario = "A team reviews notes";
  trust_information = "Fixture";
}

abbrev pub ad_copy : AdCopy
ad_copy = record {
  locale = en_gb;
  headline = "Turn notes into summaries";
  body = "Orbit AI organises approved notes.";
  cta_label = "Try it";
  cta_action_meaning = "start the demo";
}

abbrev pub draft : DraftRecord
draft = record {
  brief = brief;
  ad_copy = ad_copy;
  fact_references = "organises notes" ∷ [];
  rule_ids = "ZEU-S1" ∷ "ZEU-S3" ∷ [];
  generated_at = utc 500;
}

abbrev pub layer : CompositionLayerKind → Option ℕ → CompositionLayer
layer kind source = record {
  kind = kind;
  source_asset_id = source;
  rgba_sha256 = digest;
  bounds = record { left = pos 0; top = pos 0; right = pos 100; bottom = pos 50 };
  width = 100;
  height = 50;
}

abbrev pub layers : List CompositionLayer
layers =
    layer CompositionLayerKind.background none
    ∷ layer CompositionLayerKind.product_ui (some 12)
    ∷ layer CompositionLayerKind.logo (some 11)
    ∷ layer CompositionLayerKind.headline none
    ∷ layer CompositionLayerKind.body none
    ∷ layer CompositionLayerKind.cta none
    ∷ layer CompositionLayerKind.disclosure none
    ∷ []

abbrev pub composition : ℕ → CompositionGenerated
composition artifact = record {
  run_id = 1;
  rendered_sha256 = digest;
  artifact_id = artifact;
  layers = layers;
  generated_at = 600;
}

abbrev pub report : CritiqueReport
report = record {
  status = CritiqueStatus.pass;
  issues = [];
  warnings = [];
  brand_lock_preserved = true;
  requires_human_review = false;
  reviewed_at = 700;
}

abbrev pub response : RevisionCompleted
response = record {
  run_id = 1;
  status = ready;
  previous_composition = composition 30;
  brief = brief;
  ad_copy = ad_copy;
  composition = composition 31;
  critique = report;
  technical_attempt_count = 0;
  revised_at = 900;
}

abbrev pub revision : RevisionRecord
revision = record {
  run_id = 1;
  requested_changes = RevisionChange.shorten_body ∷ [];
  feedback_digest = "f";
  draft = draft;
  composition = composition 31;
  critique = report;
  revised_at = utc 900;
}
