-- ===== src/Tests/Reviews.antt =====
-- The theorems about the draft, its revision and its review, at concrete inputs.
use cultureshift.Base.{
  ℕ, zero, suc, String, true, false, not, ◌||◌, List, [], ◌∷◌, ◌≡◌, ◌↔◌, refl, arith, nat_eq,
  string_eq, all, any,
}
use cultureshift.Base.Result.{ok, err}
use cultureshift.Domain
use cultureshift.Domain.{china_to_uk, is_warning_code}
use cultureshift.Contracts
use cultureshift.Contracts.{
  CulturalHypothesis, ReviewStatus, RevisionChange, AdAnalysis, creative_brief_valid,
  revision_change_eq, locale_eq, review_status_eq, consistent_status, reject, pass,
  directional_constraints,
}
use cultureshift.Repository.Artifacts
use cultureshift.Critic.{
  CriticRequest, report_values, review, is_unsafe, brand_lock_preserved, facts_unsupported,
  copy_unreadable, hypothesis_issues, found_issues, occurs_in,
}
use cultureshift.Critic.Report.{
  is_settled, report_values-consistent, report_values-reject, report_values-pass,
}
use cultureshift.Critic.Limits.{is_pending, review_total, review_overflow}
use cultureshift.Draft.{DraftArtifacts, generate, fixture_write, fixtures, is_reviewed, brief_for}
use cultureshift.Draft.Laws.{as_contract, generate-constraints, generate-fixture}
use cultureshift.Revision.{RevisionArtifacts, revise, revisions}
use cultureshift.Tests.Data.{lock, analysis, draft, composition, hypothesis}

abbrev same_case : String → String
same_case s = s

abbrev checked : CriticRequest
checked = record {
  analysis = analysis;
  confirmed_brand_lock = lock;
  draft = draft;
  composition = composition 30;
  warning_codes = [];
}

report_values-consistent_example : consistent_status (report_values same_case checked 700) ≡ true
report_values-consistent_example = report_values-consistent same_case checked 700

report_values-reject_example : ((report_values same_case checked 700).status ≡ reject) ↔ (
    (is_unsafe checked || not (brand_lock_preserved checked) || facts_unsupported checked) ≡ true)
report_values-reject_example = report_values-reject same_case checked 700

-- The request once a reviewer has accepted the hypothesis.
abbrev accepted : CriticRequest
accepted = record checked {
  analysis = record analysis {
    hypotheses = record hypothesis { review_status = ReviewStatus.accepted } ∷ [];
  };
}

accepted_passes : (report_values same_case accepted 700).status ≡ pass
unfolding report_values found_issues hypothesis_issues occurs_in is_unsafe brand_lock_preserved
    facts_unsupported copy_unreadable nat_eq string_eq review_status_eq Contracts.brand_lock_eq
    Contracts.localizable_field_eq Artifacts.shows_lock Contracts.layer_kind_eq
    Contracts.critique_severity_eq Contracts.uuids_eq Contracts.strings_eq
accepted_passes = refl

report_values-pass_example :
    (is_unsafe accepted ≡ false)
    × (brand_lock_preserved accepted ≡ true)
    × (facts_unsupported accepted ≡ false)
    × (copy_unreadable accepted ≡ false)
    × (all is_settled accepted.analysis.hypotheses ≡ true)
report_values-pass_example = report_values-pass same_case accepted 700 accepted_passes

review_total_example : review same_case checked 700 ≡ ok (report_values same_case checked 700)
review_total_example = review_total same_case checked 700 (omega arith) (omega arith) refl

-- `n` pending hypotheses.
abbrev pending_hypotheses : ℕ → List CulturalHypothesis
pending_hypotheses zero = []
pending_hypotheses (suc n) = record hypothesis { hypothesis_id = n } ∷ pending_hypotheses n

-- An analysis that is refused for its content, and has as many hypotheses as it may.
abbrev refused : CriticRequest
refused = record checked {
  analysis = record analysis {
    hypotheses = pending_hypotheses 32;
    warnings = "prohibited_content" ∷ [];
  };
}

refused_pending : all is_pending refused.analysis.hypotheses ≡ true
unfolding review_status_eq
refused_pending = refl

refused_unsafe :
    (is_unsafe refused
      || not (brand_lock_preserved refused)
      || facts_unsupported refused
      || copy_unreadable refused)
    ≡ true
unfolding is_unsafe string_eq
refused_unsafe = refl

review_overflow_example : review same_case refused 700 ≡ err tt
review_overflow_example = review_overflow same_case refused 700 refl refused_pending refused_unsafe

abbrev made : DraftArtifacts
made = record {
  brief = brief_for analysis lock china_to_uk;
  ad_copy =
      (fixture_write (brief_for analysis lock china_to_uk) (fixtures china_to_uk).rule_ids).ad_copy;
  fact_references = lock.verified_product_facts;
  rule_ids = (fixtures china_to_uk).rule_ids;
}

source_language : analysis.detected_locale ≡ (fixtures china_to_uk).source_locale
unfolding fixtures
source_language = refl

hypotheses_pending : any is_reviewed analysis.hypotheses ≡ false
unfolding review_status_eq
hypotheses_pending = refl

brief_accepted : creative_brief_valid (brief_for analysis lock china_to_uk) ≡ true
unfolding creative_brief_valid fixtures nat_eq string_eq Contracts.localizable_field_eq
brief_accepted = refl

made_by_fixture : generate fixture_write analysis lock china_to_uk ≡ ok made
made_by_fixture =
    generate-fixture analysis lock china_to_uk refl source_language hypotheses_pending
      brief_accepted

generate-constraints_example :
    (analysis.brand_lock ≡ lock)
    × (made.brief ≡ brief_for analysis lock china_to_uk)
    × (creative_brief_valid made.brief ≡ true)
    × (made.fact_references ≡ lock.verified_product_facts)
    × (directional_constraints (as_contract 1 500 made) ≡ true)
generate-constraints_example =
    generate-constraints fixture_write analysis lock china_to_uk 1 500 made_by_fixture

-- The draft with a shorter body.
abbrev shortened : RevisionArtifacts
shortened = record {
  brief = draft.brief;
  ad_copy = record draft.ad_copy { body = (revisions china_to_uk).body };
  fact_references = draft.fact_references;
  rule_ids = draft.rule_ids;
}

body_shortened : revise china_to_uk draft (RevisionChange.shorten_body ∷ []) ≡ ok shortened
unfolding revise revision_change_eq Domain.direction_eq
body_shortened = refl
