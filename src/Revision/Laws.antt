-- ===== src/Revision/Laws.antt =====
-- What a revision keeps of the draft.
use cultureshift.Base.{List, ◌≡◌, arith, contains, if◌then◌else◌}
use cultureshift.Base.Result.{ok}
use cultureshift.Domain.{LocalizationDirection}
use cultureshift.Contracts.{RevisionChange, shorten_headline, shorten_body, revision_change_eq}
use cultureshift.Repository.State.{DraftRecord}
use cultureshift.Revision.{RevisionArtifacts, revise, revisions}

-- A revision succeeds exactly in the draft's own direction, and keeps the brief (with the Brand Lock),
-- the facts, the rules, the locale, the label and the meaning of the call to action. The headline and
-- the body are replaced by the shorter ones exactly if their change was requested.
pub revise_keeps :
    (direction : LocalizationDirection) (draft : DraftRecord) (changes : List RevisionChange)
    {r : RevisionArtifacts}
    → revise direction draft changes ≡ ok r
    → (draft.brief.direction ≡ direction)
      × (r.brief ≡ draft.brief)
      × (r.fact_references ≡ draft.fact_references)
      × (r.rule_ids ≡ draft.rule_ids)
      × (r.ad_copy.locale ≡ draft.ad_copy.locale)
      × (r.ad_copy.cta_label ≡ draft.ad_copy.cta_label)
      × (r.ad_copy.cta_action_meaning ≡ draft.ad_copy.cta_action_meaning)
      × (r.ad_copy.headline ≡ (
          if contains changes shorten_headline
          then (revisions direction).headline
          else draft.ad_copy.headline))
      × (r.ad_copy.body ≡ (
          if contains changes shorten_body then (revisions direction).body else draft.ad_copy.body))
unfolding revise
revise_keeps direction draft changes {r} e = ground arith
