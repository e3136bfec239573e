-- ===== src/Revision.antt =====
-- cultureshift/revision.py: the one revision of a draft.
pub mod Laws
use cultureshift.Base.{String, List, ◌!=◌, contains, if◌then◌else◌}
use cultureshift.Base.Result.{Result, ok, ◌>>◌, raise_if}
use cultureshift.Domain.{LocalizationDirection, china_to_uk, uk_to_china, direction_eq}
use cultureshift.Contracts.{
  AdCopy, CreativeBrief, RevisionChange, shorten_headline, shorten_body, revision_change_eq,
}
use cultureshift.Repository.State.{DraftRecord}

pub record RevisionArtifacts : Type 0 where
  pub brief : CreativeBrief
  pub ad_copy : AdCopy
  pub fact_references : List String
  pub rule_ids : List String

-- `_RevisionFixture`
pub record RevisionFixture : Type 0 where
  pub headline : String
  pub body : String

-- `_REVISIONS`
unfoldable pub revisions : LocalizationDirection → RevisionFixture
revisions china_to_uk = record {
  headline = "Turn approved notes into task summaries";
  body = "Orbit AI organises approved notes into task summaries.";
}
revisions uk_to_china = record { headline = "把已批准笔记整理为任务摘要"; body = "Orbit AI 将已批准笔记整理为任务摘要。" }

-- The `ValueError`.
pub data RevisionError : Type 0 where
  direction_mismatch : RevisionError

abbrev revised_copy : RevisionFixture → AdCopy → List RevisionChange → AdCopy
revised_copy fixture copy selected = record {
  locale = copy.locale;
  headline = if contains selected shorten_headline then fixture.headline else copy.headline;
  body = if contains selected shorten_body then fixture.body else copy.body;
  cta_label = copy.cta_label;
  cta_action_meaning = copy.cta_action_meaning;
}

-- `FixtureRevisionEngine.revise`
unfoldable pub revise :
    LocalizationDirection
    → DraftRecord
    → List RevisionChange
    → Result RevisionError RevisionArtifacts
revise direction draft requested_changes = do
  raise_if (draft.brief.direction != direction) direction_mismatch
  ok (record {
    brief = draft.brief;
    ad_copy = revised_copy (revisions direction) draft.ad_copy requested_changes;
    fact_references = draft.fact_references;
    rule_ids = draft.rule_ids;
  })
