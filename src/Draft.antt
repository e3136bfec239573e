-- ===== src/Draft.antt =====
-- cultureshift/draft_generation.py: the draft of a run from its analysis and confirmed Brand Lock.
-- A copywriter is any implementation of the protocol; the repository's own is `fixture_write`.
pub mod Laws
use cultureshift.Base.{String, Bool, not, ◌||◌, List, [], ◌∷◌, ◌!=◌, string_eq, any}
use cultureshift.Base.Result.{Result, ok, ◌>>◌, raise_if}
use cultureshift.Domain.{LocalizationDirection, china_to_uk, uk_to_china}
use cultureshift.Contracts.{
  AdAnalysis, AdCopy, BrandLock, CreativeBrief, CulturalHypothesis, Locale, zh_cn, en_gb, locale_eq,
  brand_lock_eq, strings_eq, ReviewStatus, review_status_eq, creative_brief_valid,
}

-- `DraftErrorCode`, and pydantic's refusal of the brief.
pub data DraftError : Type 0 where
  brand_lock_unconfirmed output_invalid brief_refused : DraftError

pub record CopywriterResult : Type 0 where
  pub ad_copy : AdCopy
  pub fact_references : List String
  pub rule_ids : List String

pub record DraftArtifacts : Type 0 where
  pub brief : CreativeBrief
  pub ad_copy : AdCopy
  pub fact_references : List String
  pub rule_ids : List String

pub record DirectionFixture : Type 0 where
  pub target_locale : Locale
  pub source_locale : Locale
  pub rule_ids : List String
  pub narrative : String
  pub use_scenario : String
  pub headline : String
  pub body : String
  pub cta_label : String

-- `_FIXTURES`
unfoldable pub fixtures : LocalizationDirection → DirectionFixture
fixtures china_to_uk = record {
  target_locale = en_gb;
  source_locale = zh_cn;
  rule_ids = "ZEU-S1" ∷ "ZEU-S3" ∷ [];
  narrative = "Present approved-note summarisation as a clear, reviewable workflow.";
  use_scenario = "A UK team reviews approved meeting notes before organising task summaries.";
  headline = "Turn approved notes into clear task summaries";
  body = "Orbit AI helps teams organise approved meeting notes into task summaries.";
  cta_label = "Try the fixture demo";
}
fixtures uk_to_china = record {
  target_locale = zh_cn;
  source_locale = en_gb;
  rule_ids = "EZC-S1" ∷ "EZC-S3" ∷ [];
  narrative = "以清晰、可复核的工作流程呈现已批准笔记的整理过程。";
  use_scenario = "中国团队在整理任务摘要前复核已批准的会议笔记。";
  headline = "把已批准笔记整理成清晰任务摘要";
  body = "Orbit AI 帮助团队将已批准的会议笔记整理为任务摘要。";
  cta_label = "体验示例演示";
}

abbrev pub Copywriter : Type 0
Copywriter = CreativeBrief → List String → CopywriterResult

-- `FixtureCopywriter.write`
unfoldable pub fixture_write : Copywriter
unfolding fixtures
fixture_write brief rule_ids =
    let fixture = fixtures brief.direction in
    record {
      ad_copy = record {
        locale = fixture.target_locale;
        headline = fixture.headline;
        body = fixture.body;
        cta_label = fixture.cta_label;
        cta_action_meaning = brief.brand_lock.cta_action_meaning;
      };
      fact_references = brief.brand_lock.verified_product_facts;
      rule_ids = rule_ids;
    }

abbrev pub is_reviewed : CulturalHypothesis → Bool
is_reviewed h = h.review_status != ReviewStatus.pending

abbrev pub brief_for : AdAnalysis → BrandLock → LocalizationDirection → CreativeBrief
brief_for analysis lock direction = record {
  direction = direction;
  target_locale = (fixtures direction).target_locale;
  brand_lock = lock;
  hypotheses = analysis.hypotheses;
  narrative = (fixtures direction).narrative;
  use_scenario = (fixtures direction).use_scenario;
  trust_information = "Fixture Demo / 非实时模型";
}

abbrev result_differs : CopywriterResult → BrandLock → DirectionFixture → Bool
result_differs r lock fixture =
    r.ad_copy.locale != fixture.target_locale
    || r.ad_copy.cta_action_meaning != lock.cta_action_meaning
    || r.rule_ids != fixture.rule_ids
    || r.fact_references != lock.verified_product_facts

-- `DraftGenerator.generate`
unfoldable pub generate :
    Copywriter → AdAnalysis → BrandLock → LocalizationDirection → Result DraftError DraftArtifacts
generate write analysis lock direction = do
  raise_if (analysis.brand_lock != lock) brand_lock_unconfirmed
  raise_if (analysis.detected_locale != (fixtures direction).source_locale) output_invalid
  raise_if (any is_reviewed analysis.hypotheses) output_invalid
  let brief = brief_for analysis lock direction
  raise_if (not (creative_brief_valid brief)) brief_refused
  let result = write brief (fixtures direction).rule_ids
  raise_if (result_differs result lock (fixtures direction)) output_invalid
  ok (record {
    brief = brief;
    ad_copy = result.ad_copy;
    fact_references = result.fact_references;
    rule_ids = result.rule_ids;
  })
