-- ===== src/Contracts/Critiques.antt =====
-- contracts.py: the Critic's issues and its report.
use cultureshift.Base.{
  String, Bool, ◌&&◌, ◌||◌, not, List, Eq, ◌==◌, string_discrete, ℕ_discrete, length, all, any,
  is_empty, differ,
}
use cultureshift.Domain.{is_warning_code}
use cultureshift.Contracts.Texts.{between, short_text_valid, UtcDatetime}

pub data CritiqueStatus : Type 0 where
  pass revise needs_human_review reject : CritiqueStatus

unfoldable pub CritiqueStatus-discrete : Discrete CritiqueStatus
CritiqueStatus-discrete = hlevel

instance unfoldable pub critique_status_eq : Eq CritiqueStatus
unfolding CritiqueStatus-discrete
critique_status_eq = record { dec = CritiqueStatus-discrete }

pub data CritiqueCategory : Type 0 where
  brand_lock fact readability culture safety : CritiqueCategory

unfoldable pub CritiqueCategory-discrete : Discrete CritiqueCategory
CritiqueCategory-discrete = hlevel

instance unfoldable pub critique_category_eq : Eq CritiqueCategory
unfolding CritiqueCategory-discrete
critique_category_eq = record { dec = CritiqueCategory-discrete }

pub data CritiqueSeverity : Type 0 where
  warning blocking : CritiqueSeverity

unfoldable pub CritiqueSeverity-discrete : Discrete CritiqueSeverity
CritiqueSeverity-discrete = hlevel

instance unfoldable pub critique_severity_eq : Eq CritiqueSeverity
unfolding CritiqueSeverity-discrete
critique_severity_eq = record { dec = CritiqueSeverity-discrete }

pub record CritiqueIssue : Type 0 where
  pub code : String
  pub category : CritiqueCategory
  pub severity : CritiqueSeverity
  pub message : String
  pub requires_human_review : Bool

unfoldable pub CritiqueIssue-discrete : Discrete CritiqueIssue
CritiqueIssue-discrete = hlevel string_discrete

unfoldable pub critique_issue_valid : CritiqueIssue → Bool
unfolding is_warning_code short_text_valid
critique_issue_valid i = is_warning_code i.code && short_text_valid i.message

pub record CritiqueReport : Type 0 where
  pub status : CritiqueStatus
  pub issues : List CritiqueIssue
  pub warnings : List String
  pub brand_lock_preserved : Bool
  pub requires_human_review : Bool
  pub reviewed_at : UtcDatetime

unfoldable pub CritiqueReport-discrete : Discrete CritiqueReport
CritiqueReport-discrete = hlevel (ℕ_discrete, string_discrete, CritiqueIssue-discrete)

instance unfoldable pub critique_report_eq : Eq CritiqueReport
unfolding CritiqueReport-discrete
critique_report_eq = record { dec = CritiqueReport-discrete }

abbrev pub is_blocking : CritiqueIssue → Bool
is_blocking i = i.severity == blocking

abbrev pub is_brand_blocking : CritiqueIssue → Bool
is_brand_blocking i = i.category == brand_lock && i.severity == blocking

abbrev pub needs_review : CritiqueIssue → Bool
needs_review i = i.requires_human_review

-- `require_consistent_status`: none of its four refusals applies.
unfoldable pub consistent_status : CritiqueReport → Bool
consistent_status r =
    not (not r.brand_lock_preserved && not (any is_brand_blocking r.issues))
    && not (differ (any is_blocking r.issues) (r.status == reject))
    && not (r.status == pass && (not (is_empty r.issues) || r.requires_human_review))
    && not (r.status == needs_human_review && not r.requires_human_review)

-- `CritiqueReport(...)` is accepted.
unfoldable pub critique_report_valid : CritiqueReport → Bool
critique_report_valid r =
    between 0 32 (length r.issues)
    && all critique_issue_valid r.issues
    && between 0 32 (length r.warnings)
    && all is_warning_code r.warnings
    && consistent_status r
