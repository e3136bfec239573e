-- ===== src/Repository/Consistent.antt =====
-- What holds of every context that the methods write: the columns that go together are written
-- together, and each artifact agrees with the confirmed Brand Lock.
use cultureshift.Base.{
  ℕ, String, Bool, true, false, List, [], ◌∷◌, Option, none, some, ◌≡◌, refl, arith, is_empty,
  is_subset, string_eq, if◌then◌else◌,
}
use cultureshift.Domain.{Uuid, Datetime, ProjectRun, ProjectRunStatus, utc, is_utc}
use cultureshift.Contracts.{
  AdAnalysis, BrandLock, CompositionGenerated, CreativeBrief, CritiqueReport, RevisionChange,
  RevisionCompleted, RunCreate, is_given,
}
use cultureshift.Workflow.{RetryAction, RetryCondition}
use cultureshift.Repository.Calls.{Call, perform, perform_all}
use cultureshift.Repository.State.{
  Database, ContextRow, RevisionRecord, DraftRecord, empty_database,
}
use cultureshift.Repository.Reads.{get, get_unchanged, get_request_unchanged}
use cultureshift.Repository.Runs.{
  create, increment_technical_attempt, update_status, claim_analysis, complete_analysis,
  record_failure,
}
use cultureshift.Repository.Artifacts.{
  confirm_brand_lock, save_draft, save_composition, save_critique, shows_lock,
}
use cultureshift.Repository.Operations.{
  claim_feedback_operation, fail_revision_operation, claim_retry_operation, complete_revision,
}

-- A column that is given holds a UTC time.
abbrev utc_column : Option Datetime → Bool
utc_column none = true
utc_column (some t) = is_utc t

-- The brief carries the confirmed lock, and the facts are among those that the lock verifies.
abbrev DraftLocked : Option CreativeBrief → Option BrandLock → Option (List String) → Type 0
DraftLocked none lock facts = Unit
DraftLocked (some b) none facts = ⊥
DraftLocked (some b) (some l) none = ⊥
DraftLocked (some b) (some l) (some fs) =
    (b.brand_lock ≡ l) × (is_empty fs ≡ false) × (is_subset fs l.verified_product_facts ≡ true)

abbrev CompositionLocked : Uuid → Option CompositionGenerated → Option BrandLock → Type 0
CompositionLocked j none lock = Unit
CompositionLocked j (some m) none = ⊥
CompositionLocked j (some m) (some l) = (m.run_id ≡ j) × (shows_lock l m ≡ true)

abbrev review_time : Option CritiqueReport → Option Datetime
review_time none = none
review_time (some r) = some (utc r.reviewed_at)

abbrev one_if : Bool → ℕ
one_if b = if b then 1 else 0

pub record IsConsistent (j : Uuid) (c : ContextRow) : Type 0 where
  pub lock_timed : is_given c.brand_lock_confirmed_at ≡ is_given c.confirmed_brand_lock
  pub lock_utc : utc_column c.brand_lock_confirmed_at ≡ true
  pub draft_copy : is_given c.ad_copy ≡ is_given c.creative_brief
  pub draft_facts : is_given c.draft_fact_references ≡ is_given c.creative_brief
  pub draft_rules : is_given c.draft_rule_ids ≡ is_given c.creative_brief
  pub draft_timed : is_given c.draft_generated_at ≡ is_given c.creative_brief
  pub draft_utc : utc_column c.draft_generated_at ≡ true
  pub draft_matches : DraftLocked c.creative_brief c.confirmed_brand_lock c.draft_fact_references
  pub composition_matches : CompositionLocked j c.composition c.confirmed_brand_lock
  pub composition_drafted : is_given c.composition ≡ true → is_given c.creative_brief ≡ true
  pub composition_counted : c.initial_generation_count ≡ one_if (is_given c.composition)
  pub critique_timed : c.critic_reviewed_at ≡ review_time c.critique
  pub critique_composed : is_given c.critique ≡ true → is_given c.composition ≡ true

abbrev RowConsistent : Uuid → Option ContextRow → Bool → Type 0
RowConsistent j none revised = revised ≡ false
RowConsistent j (some c) revised = IsConsistent j c × (c.human_revision_count ≡ one_if revised)

-- Every context is consistent, and counts a revision exactly if there is one.
abbrev pub Consistent : Database → Type 0
Consistent db = (j : Uuid) → RowConsistent j (db.contexts j) (is_given (db.revisions j))

confirm_brand_lock-Consistent :
    (id : Uuid) (proposed : BrandLock) (at : Datetime) (db : Database)
    → Consistent db
    → Consistent (confirm_brand_lock id proposed at db).1
unfolding confirm_brand_lock
confirm_brand_lock-Consistent id proposed at db h j = ground (arith, h j)

save_draft-Consistent :
    (id : Uuid) (draft : DraftRecord) (db : Database)
    → Consistent db
    → Consistent (save_draft id draft db).1
unfolding save_draft
save_draft-Consistent id draft db h j = ground (arith, h j)

save_composition-Consistent :
    (id : Uuid) (composition : CompositionGenerated) (db : Database)
    → Consistent db
    → Consistent (save_composition id composition db).1
unfolding save_composition
save_composition-Consistent id composition db h j = ground (arith, h j)

save_critique-Consistent :
    (id : Uuid) (report : CritiqueReport) (db : Database)
    → Consistent db
    → Consistent (save_critique id report db).1
unfolding save_critique
save_critique-Consistent id report db h j = ground (arith, h j)

complete_revision-Consistent :
    (id : Uuid) (operation_id : ℕ) (revision : RevisionRecord) (response : RevisionCompleted)
    (db : Database)
    → Consistent db
    → Consistent (complete_revision id operation_id revision response db).1
unfolding complete_revision
complete_revision-Consistent id operation_id revision response db h j = ground (arith, h j)

complete_analysis-Consistent :
    (id : Uuid) (analysis : AdAnalysis) (repair : Bool) (now : Datetime) (db : Database)
    → Consistent db
    → Consistent (complete_analysis id analysis repair now db).1
unfolding complete_analysis
complete_analysis-Consistent id analysis repair now db h j =
    ground (arith, h j, get_unchanged id db, get_request_unchanged id db)

create-Consistent :
    (run : ProjectRun) (request : Option RunCreate) (db : Database)
    → Consistent db
    → Consistent (create run request db).1
unfolding create
create-Consistent run request db h j = ground (arith, h j)

increment_technical_attempt-Consistent :
    (id : Uuid) (db : Database) → Consistent db → Consistent (increment_technical_attempt id db).1
unfolding increment_technical_attempt get
increment_technical_attempt-Consistent id db h j = ground (arith, h j)

update_status-Consistent :
    (id : Uuid) (status : ProjectRunStatus) (now : Datetime) (db : Database)
    → Consistent db
    → Consistent (update_status id status now db).1
unfolding update_status
update_status-Consistent id status now db h j = ground (arith, h j, get_unchanged id db)

claim_analysis-Consistent :
    (id : Uuid) (now : Datetime) (db : Database)
    → Consistent db
    → Consistent (claim_analysis id now db).1
unfolding claim_analysis get
claim_analysis-Consistent id now db h j = ground (arith, h j)

record_failure-Consistent :
    (id : Uuid) (status : ProjectRunStatus) (code : String) (now : Datetime) (db : Database)
    → Consistent db
    → Consistent (record_failure id status code now db).1
unfolding record_failure
record_failure-Consistent id status code now db h j = ground (arith, h j, get_unchanged id db)

claim_feedback_operation-Consistent :
    (id : Uuid) (key fingerprint : String) (changes : List RevisionChange) (digest : String)
    (at : Datetime) (db : Database)
    → Consistent db
    → Consistent (claim_feedback_operation id key fingerprint changes digest at db).1
unfolding claim_feedback_operation
claim_feedback_operation-Consistent id key fingerprint changes digest at db h j =
    ground (arith, h j)

fail_revision_operation-Consistent :
    (id : Uuid) (operation_id : ℕ) (condition : RetryCondition) (action : RetryAction)
    (at : Datetime) (db : Database)
    → Consistent db
    → Consistent (fail_revision_operation id operation_id condition action at db).1
unfolding fail_revision_operation
fail_revision_operation-Consistent id operation_id condition action at db h j = ground (arith, h j)

claim_retry_operation-Consistent :
    (id : Uuid) (key fingerprint : String) (at : Datetime) (db : Database)
    → Consistent db
    → Consistent (claim_retry_operation id key fingerprint at db).1
unfolding claim_retry_operation
claim_retry_operation-Consistent id key fingerprint at db h j = ground (arith, h j)

pub perform-Consistent : (c : Call) (db : Database) → Consistent db → Consistent (perform c db)
unfolding perform
perform-Consistent (Call.create run request) db h = create-Consistent run request db h
perform-Consistent (Call.increment_technical_attempt id) db h =
    increment_technical_attempt-Consistent id db h
perform-Consistent (Call.update_status id status now) db h =
    update_status-Consistent id status now db h
perform-Consistent (Call.claim_analysis id now) db h = claim_analysis-Consistent id now db h
perform-Consistent (Call.complete_analysis id analysis repair now) db h =
    complete_analysis-Consistent id analysis repair now db h
perform-Consistent (Call.record_failure id status code now) db h =
    record_failure-Consistent id status code now db h
perform-Consistent (Call.confirm_brand_lock id proposed at) db h =
    confirm_brand_lock-Consistent id proposed at db h
perform-Consistent (Call.save_draft id draft) db h = save_draft-Consistent id draft db h
perform-Consistent (Call.save_composition id composition) db h =
    save_composition-Consistent id composition db h
perform-Consistent (Call.save_critique id report) db h = save_critique-Consistent id report db h
perform-Consistent (Call.claim_feedback_operation id key fingerprint changes digest at) db h =
    claim_feedback_operation-Consistent id key fingerprint changes digest at db h
perform-Consistent (Call.fail_revision_operation id operation_id condition action at) db h =
    fail_revision_operation-Consistent id operation_id condition action at db h
perform-Consistent (Call.claim_retry_operation id key fingerprint at) db h =
    claim_retry_operation-Consistent id key fingerprint at db h
perform-Consistent (Call.complete_revision id operation_id revision response) db h =
    complete_revision-Consistent id operation_id revision response db h

pub perform_all-Consistent :
    (cs : List Call) (db : Database) → Consistent db → Consistent (perform_all cs db)
unfolding perform_all
perform_all-Consistent [] db h = h
perform_all-Consistent (c ∷ cs) db h =
    perform_all-Consistent cs (perform c db) (perform-Consistent c db h)

-- From an empty database, after any calls in any order: in the context of every run the columns of
-- the confirmation are set together and in UTC, and so are those of the draft; the brief carries
-- the confirmed Brand Lock, and the facts are not empty and are among those that it verifies; a
-- composition belongs to the run, shows the locked logo and one of the locked images of the
-- product, and has a draft; the generation count is 1 exactly with a composition; a critique stands
-- with its own review time and with a composition; the revision count is 1 exactly with a
-- revision, and no run without a context has a revision.
pub reached-Consistent : (cs : List Call) → Consistent (perform_all cs empty_database)
reached-Consistent cs = perform_all-Consistent cs empty_database (λ j. refl)
