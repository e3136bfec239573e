-- ===== src/Critic/Report.antt =====
-- What the Critic's report says of the request.
use cultureshift.Base.{
  String, Bool, true, false, not, ◌||◌, List, [], ◌∷◌, ◌≡◌, ◌==◌, ◌↔◌, refl, arith, any, is_empty,
  all,
}
use cultureshift.Contracts.{
  CritiqueIssue, consistent_status, is_blocking, needs_review, is_brand_blocking, UtcDatetime,
  CulturalHypothesis, ReviewStatus, review_status_eq, critique_status_eq, critique_severity_eq,
  critique_category_eq, reject, pass,
}
use cultureshift.Critic.{
  CriticRequest, hypothesis_issues, found_issues, report_values, is_unsafe, brand_lock_preserved,
  facts_unsupported, copy_unreadable,
}

-- The hypothesis is no longer pending.
abbrev pub is_settled : CulturalHypothesis → Bool
is_settled h = not (h.review_status == ReviewStatus.pending)

-- A list with an issue that blocks, or that wants a review, is not empty.
found-nonempty :
    (p : CritiqueIssue → Bool) (xs : List CritiqueIssue) → any p xs ≡ true → is_empty xs ≡ false
found-nonempty p [] h = cc
found-nonempty p (x ∷ xs) h = refl

module _ (casefold : String → String) where
  -- A hypothesis never blocks.
  hypotheses_do_not_block :
      (hs : List CulturalHypothesis)
      → (any is_blocking (hypothesis_issues casefold hs) ≡ false)
        × (any is_brand_blocking (hypothesis_issues casefold hs) ≡ false)
  unfolding hypothesis_issues critique_severity_eq critique_category_eq
  hypotheses_do_not_block [] = (refl, refl)
  hypotheses_do_not_block (h ∷ hs) = ground (arith, hypotheses_do_not_block hs)

  found_issues_block :
      (r : CriticRequest)
      → any is_blocking (found_issues casefold r)
        ≡ (is_unsafe r || not (brand_lock_preserved r) || facts_unsupported r)
  unfolding found_issues critique_severity_eq
  found_issues_block r = ground (arith, hypotheses_do_not_block r.analysis.hypotheses)

  found_issues_brand :
      (r : CriticRequest)
      → any is_brand_blocking (found_issues casefold r) ≡ not (brand_lock_preserved r)
  unfolding found_issues critique_severity_eq critique_category_eq
  found_issues_brand r = ground (arith, hypotheses_do_not_block r.analysis.hypotheses)

  -- The report never contradicts itself: the Critic's own status, issues and flags always pass the
  -- four checks of the report's contract.
  pub report_values-consistent :
      (r : CriticRequest) (now : UtcDatetime)
      → consistent_status (report_values casefold r now) ≡ true
  unfolding consistent_status report_values critique_status_eq
  report_values-consistent r now = ground (
    arith,
    found_issues_brand r,
    found_issues_block r,
    found-nonempty needs_review (found_issues casefold r),
  )

  -- The report rejects exactly if the evidence is unsafe, or the Brand Lock is not preserved, or the
  -- facts are not supported.
  pub report_values-reject :
      (r : CriticRequest) (now : UtcDatetime)
      → ((report_values casefold r now).status ≡ reject)
        ↔ ((is_unsafe r || not (brand_lock_preserved r) || facts_unsupported r) ≡ true)
  unfolding report_values
  report_values-reject r now = ground (arith, found_issues_block r)

  hypothesis_issues-pass :
      (hs : List CulturalHypothesis)
      → is_empty (hypothesis_issues casefold hs) ≡ true
      → all is_settled hs ≡ true
  unfolding hypothesis_issues review_status_eq
  hypothesis_issues-pass [] h = refl
  hypothesis_issues-pass (h ∷ hs) e = ground (arith, hypothesis_issues-pass hs)

  -- A report passes only a request whose evidence is safe, whose Brand Lock is preserved in every
  -- artifact, whose facts are all verified, whose copy is short enough, and none of whose cultural
  -- hypotheses is pending.
  pub report_values-pass :
      (r : CriticRequest) (now : UtcDatetime)
      → (report_values casefold r now).status ≡ pass
      → (is_unsafe r ≡ false)
        × (brand_lock_preserved r ≡ true)
        × (facts_unsupported r ≡ false)
        × (copy_unreadable r ≡ false)
        × (all is_settled r.analysis.hypotheses ≡ true)
  unfolding report_values found_issues
  report_values-pass r now h = ground (arith, hypothesis_issues-pass r.analysis.hypotheses)
