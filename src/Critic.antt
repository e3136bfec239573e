-- ===== src/Critic.antt =====
-- cultureshift/critic.py: the checks of a composed draft and the report about them. `casefold` is
-- the Unicode case folding of `str.casefold`.
pub mod Report
pub mod Limits
use cultureshift.Base.{
  ℕ, String, Bool, true, false, not, ◌&&◌, ◌||◌, List, [], ◌∷◌, ◌++◌, ◌==◌, string_eq, nat_eq, ltb,
  if◌then◌else◌, any, contains, is_subset, is_empty, from_keys, codes, text_length,
}
use cultureshift.Base.Result.{Result, ok, err}
use cultureshift.Contracts.{
  AdAnalysis, BrandLock, CompositionGenerated, CritiqueCategory, CritiqueSeverity, CritiqueIssue,
  CritiqueReport, CritiqueStatus, CulturalHypothesis, ReviewStatus, review_status_eq, brand_lock_eq,
  UtcDatetime, is_blocking, needs_review, critique_report_valid,
}
use cultureshift.Repository.State.{DraftRecord}
use cultureshift.Repository.Artifacts.{shows_lock}

-- `_SAFETY_REFUSALS`
abbrev pub safety_refusals : List String
safety_refusals = "prohibited_content" ∷ "instruction_like_content" ∷ "safety_refusal" ∷ []

-- `_ABSOLUTE_CULTURAL_PHRASES`
abbrev pub absolute_cultural_phrases : List String
absolute_cultural_phrases =
    "all british people" ∷ "british people always" ∷ "all chinese people" ∷ "chinese people always"
    ∷ "所有英国人" ∷ "英国人都" ∷ "所有中国人" ∷ "中国人都" ∷ []

-- `_STEREOTYPE_PHRASES`
abbrev pub stereotype_phrases : List String
stereotype_phrases =
    "british people are reserved" ∷ "chinese users only like red" ∷ "英国人很保守" ∷ "中国用户只喜欢红色" ∷ []

pub record CriticRequest : Type 0 where
  pub analysis : AdAnalysis
  pub confirmed_brand_lock : BrandLock
  pub draft : DraftRecord
  pub composition : CompositionGenerated
  pub warning_codes : List String

abbrev is_prefix : List ℕ → List ℕ → Bool
is_prefix [] s = true
is_prefix (p ∷ ps) [] = false
is_prefix (p ∷ ps) (c ∷ s) = p == c && is_prefix ps s

abbrev is_infix : List ℕ → List ℕ → Bool
is_infix p [] = is_empty p
is_infix p (c ∷ s) = is_prefix p (c ∷ s) || is_infix p s

-- `phrase in claim`
unfoldable pub occurs_in : String → String → Bool
occurs_in claim phrase = is_infix (codes phrase) (codes claim)

abbrev safety_issue : CritiqueIssue
safety_issue = record {
  code = "safety_refusal";
  category = CritiqueCategory.safety;
  severity = CritiqueSeverity.blocking;
  message = "Persisted safety evidence blocks this concept.";
  requires_human_review = false;
}

abbrev brand_lock_issue : CritiqueIssue
brand_lock_issue = record {
  code = "brand_lock_mismatch";
  category = CritiqueCategory.brand_lock;
  severity = CritiqueSeverity.blocking;
  message = "Protected Brand Lock evidence does not match the confirmation.";
  requires_human_review = false;
}

abbrev fact_issue : CritiqueIssue
fact_issue = record {
  code = "unsupported_fact";
  category = CritiqueCategory.fact;
  severity = CritiqueSeverity.blocking;
  message = "Copy evidence includes an unsupported product fact.";
  requires_human_review = false;
}

abbrev readability_issue : CritiqueIssue
readability_issue = record {
  code = "copy_unreadable";
  category = CritiqueCategory.readability;
  severity = CritiqueSeverity.warning;
  message = "Copy exceeds the deterministic fixture readability limit.";
  requires_human_review = false;
}

abbrev absolute_issue : CritiqueIssue
absolute_issue = record {
  code = "absolute_cultural_claim";
  category = CritiqueCategory.culture;
  severity = CritiqueSeverity.warning;
  message = "A population-wide cultural claim must be rewritten as a hypothesis.";
  requires_human_review = false;
}

abbrev stereotype_issue : CritiqueIssue
stereotype_issue = record {
  code = "possible_stereotype";
  category = CritiqueCategory.culture;
  severity = CritiqueSeverity.warning;
  message = "A possible stereotype requires accountable human review.";
  requires_human_review = true;
}

abbrev pending_issue : CritiqueIssue
pending_issue = record {
  code = "cultural_hypothesis_pending";
  category = CritiqueCategory.culture;
  severity = CritiqueSeverity.warning;
  message = "A cultural hypothesis remains pending human review.";
  requires_human_review = true;
}

-- `issues.append(issue)` under a test.
abbrev issue_if : Bool → CritiqueIssue → List CritiqueIssue
issue_if b i = if b then i ∷ [] else []

-- `tuple(dict.fromkeys((*request.analysis.warnings, *request.warning_codes)))`
abbrev pub all_warnings : CriticRequest → List String
all_warnings r = from_keys (r.analysis.warnings ++ r.warning_codes)

unfoldable pub is_unsafe : CriticRequest → Bool
is_unsafe r = any (contains (all_warnings r)) safety_refusals

unfoldable pub brand_lock_preserved : CriticRequest → Bool
brand_lock_preserved r =
    r.analysis.brand_lock == r.confirmed_brand_lock
    && r.draft.brief.brand_lock == r.confirmed_brand_lock
    && r.draft.ad_copy.cta_action_meaning == r.confirmed_brand_lock.cta_action_meaning
    && shows_lock r.confirmed_brand_lock r.composition

unfoldable pub facts_unsupported : CriticRequest → Bool
facts_unsupported r =
    is_empty r.draft.fact_references
    || not (is_subset r.draft.fact_references r.confirmed_brand_lock.verified_product_facts)

unfoldable pub copy_unreadable : CriticRequest → Bool
copy_unreadable r =
    ltb 80 (text_length r.draft.ad_copy.headline)
    || ltb 220 (text_length r.draft.ad_copy.body)
    || ltb 32 (text_length r.draft.ad_copy.cta_label)

module _ (casefold : String → String) where
  abbrev mentions : List String → CulturalHypothesis → Bool
  mentions phrases h = any (occurs_in (casefold h.claim)) phrases

  unfoldable pub hypothesis_issues : List CulturalHypothesis → List CritiqueIssue
  hypothesis_issues [] = []
  hypothesis_issues (h ∷ hs) =
      (if mentions absolute_cultural_phrases h
        then absolute_issue ∷ []
        else if mentions stereotype_phrases h
        then stereotype_issue ∷ []
        else issue_if (h.review_status == ReviewStatus.pending) pending_issue)
      ++ hypothesis_issues hs

  -- The issues in the order in which `review` appends them.
  unfoldable pub found_issues : CriticRequest → List CritiqueIssue
  found_issues r =
      issue_if (is_unsafe r) safety_issue
      ++ (issue_if (not (brand_lock_preserved r)) brand_lock_issue
          ++ (issue_if (facts_unsupported r) fact_issue
              ++ (issue_if (copy_unreadable r) readability_issue
                  ++ hypothesis_issues r.analysis.hypotheses)))

  abbrev pub status_of : List CritiqueIssue → CritiqueStatus
  status_of issues =
      if any is_blocking issues
      then CritiqueStatus.reject
      else if any needs_review issues
      then CritiqueStatus.needs_human_review
      else if is_empty issues
      then CritiqueStatus.pass
      else CritiqueStatus.revise

  -- The values that `CritiqueReport(...)` is given.
  unfoldable pub report_values : CriticRequest → UtcDatetime → CritiqueReport
  report_values r now =
      let issues = found_issues r in
      record {
        status = status_of issues;
        issues = issues;
        warnings = all_warnings r;
        brand_lock_preserved = brand_lock_preserved r;
        requires_human_review = any needs_review issues;
        reviewed_at = now;
      }

  -- `Critic.review`; `err tt` is pydantic's `ValidationError`.
  unfoldable pub review : CriticRequest → UtcDatetime → Result (Unit {0}) CritiqueReport
  unfolding report_values
  review r now =
      let report = report_values r now in if critique_report_valid report then ok report else err tt
