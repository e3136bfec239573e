-- ===== src/Draft/Laws.antt =====
-- What a generated draft guarantees, whoever writes the copy.
use cultureshift.Base.{true, false, ◌≡◌, arith, any}
use cultureshift.Base.Result.{ok}
use cultureshift.Domain.{LocalizationDirection, china_to_uk, uk_to_china, Uuid}
use cultureshift.Contracts.{
  AdAnalysis, BrandLock, locale_eq, brand_lock_eq, strings_eq, DraftGenerated,
  directional_constraints, creative_brief_valid, UtcDatetime,
}
use cultureshift.Draft.{
  Copywriter, DraftArtifacts, fixtures, fixture_write, is_reviewed, brief_for, generate,
}

-- The contract that the API gives the artifacts of a run.
abbrev pub as_contract : Uuid → UtcDatetime → DraftArtifacts → DraftGenerated
as_contract id at d = record {
  run_id = id;
  brief = d.brief;
  ad_copy = d.ad_copy;
  rule_ids = d.rule_ids;
  generated_at = at;
}

-- Whatever copywriter is used: a generated draft carries the confirmed Brand Lock and exactly the
-- facts that it verifies, its brief is the one for the direction and is valid, and it satisfies the
-- constraints of the direction (locale, meaning of the call to action, rules) of the contract.
pub generate-constraints :
    (write : Copywriter) (analysis : AdAnalysis) (lock : BrandLock)
    (direction : LocalizationDirection) (id : Uuid) (at : UtcDatetime) {d : DraftArtifacts}
    → generate write analysis lock direction ≡ ok d
    → (analysis.brand_lock ≡ lock)
      × (d.brief ≡ brief_for analysis lock direction)
      × (creative_brief_valid d.brief ≡ true)
      × (d.fact_references ≡ lock.verified_product_facts)
      × (directional_constraints (as_contract id at d) ≡ true)
unfolding generate fixtures directional_constraints
generate-constraints write analysis lock china_to_uk id at {d} e = ground arith
generate-constraints write analysis lock uk_to_china id at {d} e = ground arith

-- With the fixture copywriter a draft is generated whenever the analysis carries the
-- confirmed Brand Lock, was made of the direction's source language, has only pending hypotheses,
-- and the brief is valid.
pub generate-fixture :
    (analysis : AdAnalysis) (lock : BrandLock) (direction : LocalizationDirection)
    → (analysis.brand_lock ≡ lock)
    → (analysis.detected_locale ≡ (fixtures direction).source_locale)
    → any is_reviewed analysis.hypotheses ≡ false
    → creative_brief_valid (brief_for analysis lock direction) ≡ true
    → generate fixture_write analysis lock direction
      ≡ ok (record {
        brief = brief_for analysis lock direction;
        ad_copy =
            (fixture_write
              (brief_for analysis lock direction)
              (fixtures direction).rule_ids).ad_copy;
        fact_references = lock.verified_product_facts;
        rule_ids = (fixtures direction).rule_ids;
      })
unfolding generate fixture_write
generate-fixture analysis lock direction l s p v = ground arith
