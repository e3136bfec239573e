-- ===== src/Repository/Statuses.antt =====
-- How the methods move the status of a run along `_ALLOWED_TRANSITIONS`.
use cultureshift.Base.{ℕ, String, Bool, true, List, Option, none, some, ◌≡◌, ◌⊎◌, arith, contains}
use cultureshift.Domain.{
  Uuid, Datetime, ProjectRun, ProjectRunStatus, in_progress, allowed_transitions, status_eq,
  with_status, model_validate,
}
use cultureshift.Contracts.{
  AdAnalysis, BrandLock, CompositionGenerated, CritiqueReport, RevisionChange, RevisionCompleted,
  RunCreate,
}
use cultureshift.Workflow.{RetryAction, RetryCondition}
use cultureshift.Repository.State.{Database, RunRow, RevisionRecord, DraftRecord}
use cultureshift.Repository.Reads.{get, get_request_unchanged}
use cultureshift.Repository.Runs.{
  create, increment_technical_attempt, update_status, claim_analysis, complete_analysis,
  record_failure,
}
use cultureshift.Repository.Artifacts.{
  confirm_brand_lock, save_draft, save_composition, save_critique,
}
use cultureshift.Repository.Operations.{
  claim_feedback_operation, fail_revision_operation, claim_retry_operation, complete_revision,
}
use cultureshift.Repository.Calls.{Call, perform}

-- The status stays or takes a step of the table; a row is never removed.
abbrev pub Moves : Option RunRow → Option RunRow → Type 0
Moves none after = Unit
Moves (some r) none = ⊥
Moves (some r) (some s) =
    (s.status ≡ r.status) ⊎ (contains (allowed_transitions r.status) s.status ≡ true)

confirm_brand_lock-Moves :
    (id : Uuid) (proposed : BrandLock) (at : Datetime) (db : Database) (j : Uuid)
    → Moves (db.runs j) ((confirm_brand_lock id proposed at db).1.runs j)
unfolding confirm_brand_lock status_eq
confirm_brand_lock-Moves id proposed at db j = ground arith

save_critique-Moves :
    (id : Uuid) (report : CritiqueReport) (db : Database) (j : Uuid)
    → Moves (db.runs j) ((save_critique id report db).1.runs j)
unfolding save_critique status_eq
save_critique-Moves id report db j = ground arith

claim_feedback_operation-Moves :
    (id : Uuid) (key fingerprint : String) (changes : List RevisionChange) (digest : String)
    (at : Datetime) (db : Database) (j : Uuid)
    → Moves
        (db.runs j)
        ((claim_feedback_operation id key fingerprint changes digest at db).1.runs j)
unfolding claim_feedback_operation status_eq
claim_feedback_operation-Moves id key fingerprint changes digest at db j = ground arith

claim_retry_operation-Moves :
    (id : Uuid) (key fingerprint : String) (at : Datetime) (db : Database) (j : Uuid)
    → Moves (db.runs j) ((claim_retry_operation id key fingerprint at db).1.runs j)
unfolding claim_retry_operation status_eq
claim_retry_operation-Moves id key fingerprint at db j = ground arith

update_status-Moves :
    (id : Uuid) (status : ProjectRunStatus) (now : Datetime) (db : Database) (j : Uuid)
    → Moves (db.runs j) ((update_status id status now db).1.runs j)
unfolding update_status get with_status model_validate
update_status-Moves id status now db j = ground arith

record_failure-Moves :
    (id : Uuid) (status : ProjectRunStatus) (code : String) (now : Datetime) (db : Database)
    (j : Uuid)
    → Moves (db.runs j) ((record_failure id status code now db).1.runs j)
unfolding record_failure get with_status model_validate
record_failure-Moves id status code now db j = ground arith

claim_analysis-Moves :
    (id : Uuid) (now : Datetime) (db : Database) (j : Uuid)
    → Moves (db.runs j) ((claim_analysis id now db).1.runs j)
unfolding claim_analysis get status_eq
claim_analysis-Moves id now db j = ground arith

complete_analysis-Moves :
    (id : Uuid) (analysis : AdAnalysis) (repair : Bool) (now : Datetime) (db : Database) (j : Uuid)
    → Moves (db.runs j) ((complete_analysis id analysis repair now db).1.runs j)
unfolding complete_analysis get with_status model_validate
complete_analysis-Moves id analysis repair now db j = ground (arith, get_request_unchanged id db)

create-Moves :
    (run : ProjectRun) (request : Option RunCreate) (db : Database) (j : Uuid)
    → Moves (db.runs j) ((create run request db).1.runs j)
unfolding create
create-Moves run request db j = ground arith

increment_technical_attempt-Moves :
    (id : Uuid) (db : Database) (j : Uuid)
    → Moves (db.runs j) ((increment_technical_attempt id db).1.runs j)
unfolding increment_technical_attempt get
increment_technical_attempt-Moves id db j = ground arith

save_draft-Moves :
    (id : Uuid) (draft : DraftRecord) (db : Database) (j : Uuid)
    → Moves (db.runs j) ((save_draft id draft db).1.runs j)
unfolding save_draft
save_draft-Moves id draft db j = ground arith

save_composition-Moves :
    (id : Uuid) (composition : CompositionGenerated) (db : Database) (j : Uuid)
    → Moves (db.runs j) ((save_composition id composition db).1.runs j)
unfolding save_composition
save_composition-Moves id composition db j = ground arith

-- The run is being worked on.
abbrev pub IsWorking : Option RunRow → Type 0
IsWorking none = Unit
IsWorking (some r) = r.status ≡ in_progress

fail_revision_operation-Moves :
    (id : Uuid) (operation_id : ℕ) (condition : RetryCondition) (action : RetryAction)
    (at : Datetime) (db : Database) (j : Uuid)
    → IsWorking (db.runs id)
    → Moves (db.runs j) ((fail_revision_operation id operation_id condition action at db).1.runs j)
unfolding fail_revision_operation status_eq
fail_revision_operation-Moves id operation_id condition action at db j w = ground arith

complete_revision-Moves :
    (id : Uuid) (operation_id : ℕ) (revision : RevisionRecord) (response : RevisionCompleted)
    (db : Database) (j : Uuid)
    → IsWorking (db.runs id)
    → Moves (db.runs j) ((complete_revision id operation_id revision response db).1.runs j)
unfolding complete_revision status_eq
complete_revision-Moves id operation_id revision response db j w = ground arith

-- What the calls that write a status without a test of it rely on.
abbrev pub Relies : Call → Database → Type 0
Relies (Call.fail_revision_operation id _ _ _ _) db = IsWorking (db.runs id)
Relies (Call.complete_revision id _ _ _) db = IsWorking (db.runs id)
Relies _ db = Unit

-- Every call leaves the status of every run, or moves it along an arrow of the table of allowed
-- transitions, and removes no run. The two calls that end a revision operation write the status
-- without testing it: for them the run must be in progress.
pub perform-Moves :
    (c : Call) (db : Database)
    → Relies c db
    → (j : Uuid) → Moves (db.runs j) ((perform c db).runs j)
unfolding perform
perform-Moves (Call.create run request) db w j = create-Moves run request db j
perform-Moves (Call.increment_technical_attempt id) db w j =
    increment_technical_attempt-Moves id db j
perform-Moves (Call.update_status id status now) db w j = update_status-Moves id status now db j
perform-Moves (Call.claim_analysis id now) db w j = claim_analysis-Moves id now db j
perform-Moves (Call.complete_analysis id analysis repair now) db w j =
    complete_analysis-Moves id analysis repair now db j
perform-Moves (Call.record_failure id status code now) db w j =
    record_failure-Moves id status code now db j
perform-Moves (Call.confirm_brand_lock id proposed at) db w j =
    confirm_brand_lock-Moves id proposed at db j
perform-Moves (Call.save_draft id draft) db w j = save_draft-Moves id draft db j
perform-Moves (Call.save_composition id composition) db w j =
    save_composition-Moves id composition db j
perform-Moves (Call.save_critique id report) db w j = save_critique-Moves id report db j
perform-Moves (Call.claim_feedback_operation id key fingerprint changes digest at) db w j =
    claim_feedback_operation-Moves id key fingerprint changes digest at db j
perform-Moves (Call.fail_revision_operation id operation_id condition action at) db w j =
    fail_revision_operation-Moves id operation_id condition action at db j w
perform-Moves (Call.claim_retry_operation id key fingerprint at) db w j =
    claim_retry_operation-Moves id key fingerprint at db j
perform-Moves (Call.complete_revision id operation_id revision response) db w j =
    complete_revision-Moves id operation_id revision response db j w
