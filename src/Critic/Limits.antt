-- ===== src/Critic/Limits.antt =====
-- When `CritiqueReport` accepts what the Critic gives it: the bound of 32 on issues and warnings.
use cultureshift.Base.{
  nat_eq, ◌+◌, ◌≤◌, String, Bool, true, not, ◌||◌, List, [], ◌∷◌, ◌≡◌, refl, arith, ◌==◌, all,
  length,
}
use cultureshift.Base.Result.{ok, err}
use cultureshift.Domain.{is_warning_code}
use cultureshift.Contracts.{
  CulturalHypothesis, ReviewStatus, review_status_eq, UtcDatetime, critique_issue_valid,
  critique_report_valid,
}
use cultureshift.Critic.{
  CriticRequest, hypothesis_issues, found_issues, report_values, review, is_unsafe,
  brand_lock_preserved, facts_unsupported, copy_unreadable, all_warnings, safety_issue,
  brand_lock_issue, fact_issue, readability_issue, absolute_issue, stereotype_issue, pending_issue,
}
use cultureshift.Critic.Report.{report_values-consistent}

-- Every issue that the Critic can raise is a valid one.
issues_valid :
    (critique_issue_valid safety_issue ≡ true)
    × (critique_issue_valid brand_lock_issue ≡ true)
    × (critique_issue_valid fact_issue ≡ true)
    × (critique_issue_valid readability_issue ≡ true)
    × (critique_issue_valid absolute_issue ≡ true)
    × (critique_issue_valid stereotype_issue ≡ true)
    × (critique_issue_valid pending_issue ≡ true)
unfolding critique_issue_valid nat_eq
issues_valid = (refl, refl, refl, refl, refl, refl, refl)

abbrev pub is_pending : CulturalHypothesis → Bool
is_pending h = h.review_status == ReviewStatus.pending

module _ (casefold : String → String) where
  hypothesis_issues_valid :
      (hs : List CulturalHypothesis)
      → all critique_issue_valid (hypothesis_issues casefold hs) ≡ true
  unfolding hypothesis_issues
  hypothesis_issues_valid [] = refl
  hypothesis_issues_valid (h ∷ hs) = ground (arith, hypothesis_issues_valid hs, issues_valid)

  found_issues_valid :
      (r : CriticRequest) → all critique_issue_valid (found_issues casefold r) ≡ true
  unfolding found_issues
  found_issues_valid r = ground (arith, hypothesis_issues_valid r.analysis.hypotheses, issues_valid)

  length-hypothesis_issues :
      (hs : List CulturalHypothesis) → length (hypothesis_issues casefold hs) ≤ length hs
  unfolding hypothesis_issues
  length-hypothesis_issues [] = omega arith
  length-hypothesis_issues (h ∷ hs) = ground (arith, length-hypothesis_issues hs)

  length-hypothesis_issues_pending :
      (hs : List CulturalHypothesis)
      → all is_pending hs ≡ true
      → length (hypothesis_issues casefold hs) ≡ length hs
  unfolding hypothesis_issues
  length-hypothesis_issues_pending [] p = refl
  length-hypothesis_issues_pending (h ∷ hs) p = ground (arith, length-hypothesis_issues_pending hs)

  length-found_issues :
      (r : CriticRequest) → length (found_issues casefold r) ≤ 4 + length r.analysis.hypotheses
  unfolding found_issues
  length-found_issues r = ground (arith, length-hypothesis_issues r.analysis.hypotheses)

  -- With at most 28 hypotheses, and at most 32 warnings that are codes, the Critic returns its
  -- report: the contract of the report accepts it.
  pub review_total :
      (r : CriticRequest) (now : UtcDatetime)
      → length r.analysis.hypotheses ≤ 28
      → length (all_warnings r) ≤ 32
      → all is_warning_code (all_warnings r) ≡ true
      → review casefold r now ≡ ok (report_values casefold r now)
  unfolding review critique_report_valid
  review_total r now few few_warnings codes =
      ground (
        arith,
        report_values-consistent casefold r now,
        length-found_issues r,
        found_issues_valid r,
      )

  -- With 32 pending hypotheses, which an analysis may have, any further issue makes 33: the contract
  -- refuses the report, and the Critic raises instead of rejecting the composition.
  pub review_overflow :
      (r : CriticRequest) (now : UtcDatetime)
      → length r.analysis.hypotheses ≡ 32
      → all is_pending r.analysis.hypotheses ≡ true
      → (is_unsafe r || not (brand_lock_preserved r) || facts_unsupported r || copy_unreadable r)
        ≡ true
      → review casefold r now ≡ err tt
  unfolding review critique_report_valid found_issues
  review_overflow r now many pending further =
      ground (arith, length-hypothesis_issues_pending r.analysis.hypotheses)
