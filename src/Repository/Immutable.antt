-- ===== src/Repository/Immutable.antt =====
-- What is written once stays: no method of the repository changes a confirmed Brand Lock, a stored
-- draft, composition or critique, or a revision.
use cultureshift.Base.{ℕ, ◌∷◌, [], String, Bool, List, Option, some, ◌≡◌, arith}
use cultureshift.Domain.{Uuid, Datetime, ProjectRun, ProjectRunStatus}
use cultureshift.Contracts.{
  AdAnalysis, BrandLock, CompositionGenerated, CritiqueReport, RevisionChange, RevisionCompleted,
  RunCreate,
}
use cultureshift.Workflow.{RetryAction, RetryCondition}
use cultureshift.Repository.Calls.{Call, perform, perform_all}
use cultureshift.Repository.State.{Database, ContextRow, RevisionRecord, DraftRecord}
use cultureshift.Repository.Reads.{column, get, get_unchanged, get_request_unchanged}
use cultureshift.Repository.Runs.{
  create, increment_technical_attempt, update_status, claim_analysis, complete_analysis,
  record_failure,
}
use cultureshift.Repository.Artifacts.{
  confirm_brand_lock, save_draft, save_composition, save_critique,
}
use cultureshift.Repository.Operations.{
  claim_feedback_operation, fail_revision_operation, claim_retry_operation, complete_revision,
}

-- The values that a run's context holds stay.
abbrev Kept : {A : Type 0} → (ContextRow → Option A) → Database → Database → Type 0
Kept {A} f db db' =
    (j : Uuid) (v : A) → column f (db.contexts j) ≡ some v → column f (db'.contexts j) ≡ some v

pub record Keeps (db db' : Database) : Type 0 where
  pub lock : Kept (λ c. c.confirmed_brand_lock) db db'
  pub brief : Kept (λ c. c.creative_brief) db db'
  pub copy : Kept (λ c. c.ad_copy) db db'
  pub facts : Kept (λ c. c.draft_fact_references) db db'
  pub composition : Kept (λ c. c.composition) db db'
  pub critique : Kept (λ c. c.critique) db db'
  pub revision :
      (j : Uuid) (v : RevisionRecord) → db.revisions j ≡ some v → db'.revisions j ≡ some v

confirm_brand_lock-Keeps :
    (id : Uuid) (proposed : BrandLock) (at : Datetime) (db : Database)
    → Keeps db (confirm_brand_lock id proposed at db).1
unfolding confirm_brand_lock
confirm_brand_lock-Keeps id proposed at db = ground arith

save_draft-Keeps :
    (id : Uuid) (draft : DraftRecord) (db : Database) → Keeps db (save_draft id draft db).1
unfolding save_draft
save_draft-Keeps id draft db = ground arith

save_composition-Keeps :
    (id : Uuid) (composition : CompositionGenerated) (db : Database)
    → Keeps db (save_composition id composition db).1
unfolding save_composition
save_composition-Keeps id composition db = ground arith

save_critique-Keeps :
    (id : Uuid) (report : CritiqueReport) (db : Database) → Keeps db (save_critique id report db).1
unfolding save_critique
save_critique-Keeps id report db = ground arith

create-Keeps :
    (run : ProjectRun) (request : Option RunCreate) (db : Database)
    → Keeps db (create run request db).1
unfolding create
create-Keeps run request db = ground arith

increment_technical_attempt-Keeps :
    (id : Uuid) (db : Database) → Keeps db (increment_technical_attempt id db).1
unfolding increment_technical_attempt get
increment_technical_attempt-Keeps id db = ground arith

update_status-Keeps :
    (id : Uuid) (status : ProjectRunStatus) (now : Datetime) (db : Database)
    → Keeps db (update_status id status now db).1
unfolding update_status
update_status-Keeps id status now db = ground (arith, get_unchanged id db)

claim_analysis-Keeps :
    (id : Uuid) (now : Datetime) (db : Database) → Keeps db (claim_analysis id now db).1
unfolding claim_analysis get
claim_analysis-Keeps id now db = ground arith

complete_analysis-Keeps :
    (id : Uuid) (analysis : AdAnalysis) (repair : Bool) (now : Datetime) (db : Database)
    → Keeps db (complete_analysis id analysis repair now db).1
unfolding complete_analysis
complete_analysis-Keeps id analysis repair now db =
    ground (arith, get_unchanged id db, get_request_unchanged id db)

record_failure-Keeps :
    (id : Uuid) (status : ProjectRunStatus) (code : String) (now : Datetime) (db : Database)
    → Keeps db (record_failure id status code now db).1
unfolding record_failure
record_failure-Keeps id status code now db = ground (arith, get_unchanged id db)

claim_feedback_operation-Keeps :
    (id : Uuid) (key fingerprint : String) (changes : List RevisionChange) (digest : String)
    (at : Datetime) (db : Database)
    → Keeps db (claim_feedback_operation id key fingerprint changes digest at db).1
unfolding claim_feedback_operation
claim_feedback_operation-Keeps id key fingerprint changes digest at db = ground arith

fail_revision_operation-Keeps :
    (id : Uuid) (operation_id : ℕ) (condition : RetryCondition) (action : RetryAction)
    (at : Datetime) (db : Database)
    → Keeps db (fail_revision_operation id operation_id condition action at db).1
unfolding fail_revision_operation
fail_revision_operation-Keeps id operation_id condition action at db = ground arith

claim_retry_operation-Keeps :
    (id : Uuid) (key fingerprint : String) (at : Datetime) (db : Database)
    → Keeps db (claim_retry_operation id key fingerprint at db).1
unfolding claim_retry_operation
claim_retry_operation-Keeps id key fingerprint at db = ground arith

complete_revision-Keeps :
    (id : Uuid) (operation_id : ℕ) (revision : RevisionRecord) (response : RevisionCompleted)
    (db : Database)
    → Keeps db (complete_revision id operation_id revision response db).1
unfolding complete_revision
complete_revision-Keeps id operation_id revision response db = ground arith

pub perform-Keeps : (c : Call) (db : Database) → Keeps db (perform c db)
unfolding perform
perform-Keeps (Call.create run request) db = create-Keeps run request db
perform-Keeps (Call.increment_technical_attempt id) db = increment_technical_attempt-Keeps id db
perform-Keeps (Call.update_status id status now) db = update_status-Keeps id status now db
perform-Keeps (Call.claim_analysis id now) db = claim_analysis-Keeps id now db
perform-Keeps (Call.complete_analysis id analysis repair now) db =
    complete_analysis-Keeps id analysis repair now db
perform-Keeps (Call.record_failure id status code now) db =
    record_failure-Keeps id status code now db
perform-Keeps (Call.confirm_brand_lock id proposed at) db =
    confirm_brand_lock-Keeps id proposed at db
perform-Keeps (Call.save_draft id draft) db = save_draft-Keeps id draft db
perform-Keeps (Call.save_composition id composition) db = save_composition-Keeps id composition db
perform-Keeps (Call.save_critique id report) db = save_critique-Keeps id report db
perform-Keeps (Call.claim_feedback_operation id key fingerprint changes digest at) db =
    claim_feedback_operation-Keeps id key fingerprint changes digest at db
perform-Keeps (Call.fail_revision_operation id operation_id condition action at) db =
    fail_revision_operation-Keeps id operation_id condition action at db
perform-Keeps (Call.claim_retry_operation id key fingerprint at) db =
    claim_retry_operation-Keeps id key fingerprint at db
perform-Keeps (Call.complete_revision id operation_id revision response) db =
    complete_revision-Keeps id operation_id revision response db

pub Keeps-trans : (a b c : Database) → Keeps a b → Keeps b c → Keeps a c
Keeps-trans a b c h k = record {
  lock = λ j v e. k.lock j v (h.lock j v e);
  brief = λ j v e. k.brief j v (h.brief j v e);
  copy = λ j v e. k.copy j v (h.copy j v e);
  facts = λ j v e. k.facts j v (h.facts j v e);
  composition = λ j v e. k.composition j v (h.composition j v e);
  critique = λ j v e. k.critique j v (h.critique j v e);
  revision = λ j v e. k.revision j v (h.revision j v e);
}

-- Whatever calls the clients make, in whatever order, and whether each returns or raises: a
-- confirmed Brand Lock, a stored brief, copy, list of facts, composition or critique, and a stored
-- revision of every run stay as they are.
pub perform_all-Keeps : (cs : List Call) (db : Database) → Keeps db (perform_all cs db)
unfolding perform_all
perform_all-Keeps [] db = ground arith
perform_all-Keeps (c ∷ cs) db =
    Keeps-trans db (perform c db) (perform_all cs (perform c db)) (perform-Keeps c db)
      (perform_all-Keeps cs (perform c db))
