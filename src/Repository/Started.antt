-- ===== src/Repository/Started.antt =====
-- A run that was reviewed is no longer pending.
use cultureshift.Base.{
  ℕ, String, Bool, true, false, List, Option, none, some, ◌≡◌, ◌⊎◌, inl, inr, arith, nat_eq,
  contains, ◌==◌, ==_iff, Bool-cases,
}
use cultureshift.Domain.{
  Uuid, Datetime, ProjectRun, ProjectRunStatus, pending, status_eq, allowed_transitions,
}
use cultureshift.Contracts.{
  AdAnalysis, BrandLock, CritiqueReport, RevisionChange, RevisionCompleted, RunCreate, is_given,
}
use cultureshift.Repository.State.{Database, RunRow, ContextRow, RevisionRecord}
use cultureshift.Repository.Reads.{column, get, get_request_unchanged}
use cultureshift.Repository.Runs.{
  create, increment_technical_attempt, claim_analysis, complete_analysis, record_failure,
}
use cultureshift.Repository.Artifacts.{
  confirm_brand_lock, save_draft, save_composition, save_critique,
}
use cultureshift.Repository.Operations.{
  claim_feedback_operation, fail_revision_operation, claim_retry_operation, complete_revision,
}
use cultureshift.Repository.Calls.{Call, perform}
use cultureshift.Repository.Statuses.{Moves}
use cultureshift.Repository.Exclusive.{IsDisciplined, Reached, empty, called}
use cultureshift.Repository.Lifecycle.{Reached-Moves}

abbrev pub is_reviewed : Option ContextRow → Bool
is_reviewed c = is_given (column (λ c. c.critique) c)

-- There is a run, and it is not pending.
abbrev pub IsStarted : Option RunRow → Type 0
IsStarted none = ⊥
IsStarted (some r) = (r.status == pending) ≡ false

-- A review of the run with this id is new only if the run has been started.
abbrev Reviews : Database → Database → Uuid → Type 0
Reviews db db' j =
    (is_reviewed (db'.contexts j) ≡ true)
    → (is_reviewed (db.contexts j) ≡ true) ⊎ IsStarted (db'.runs j)

create-Reviews :
    (run : ProjectRun) (request : Option RunCreate) (db : Database) (j : Uuid)
    → Reviews db (create run request db).1 j
unfolding create
create-Reviews run request db j h = ground arith

save_critique-Reviews :
    (id : Uuid) (report : CritiqueReport) (db : Database) (j : Uuid)
    → Reviews db (save_critique id report db).1 j
unfolding save_critique status_eq
save_critique-Reviews id report db j h = ground arith

complete_analysis-Reviews :
    (id : Uuid) (analysis : AdAnalysis) (repair : Bool) (now : Datetime) (db : Database) (j : Uuid)
    → Reviews db (complete_analysis id analysis repair now db).1 j
unfolding complete_analysis get
complete_analysis-Reviews id analysis repair now db j h =
    ground (arith, get_request_unchanged id db)

record_failure-Reviews :
    (id : Uuid) (status : ProjectRunStatus) (code : String) (now : Datetime) (db : Database)
    (j : Uuid)
    → Reviews db (record_failure id status code now db).1 j
unfolding record_failure get
record_failure-Reviews id status code now db j h = ground arith

confirm_brand_lock-Reviews :
    (id : Uuid) (proposed : BrandLock) (at : Datetime) (db : Database) (j : Uuid)
    → Reviews db (confirm_brand_lock id proposed at db).1 j
unfolding confirm_brand_lock
confirm_brand_lock-Reviews id proposed at db j h = ground arith

complete_revision-Reviews :
    (id : Uuid) (operation_id : ℕ) (revision : RevisionRecord) (response : RevisionCompleted)
    (db : Database) (j : Uuid)
    → Reviews db (complete_revision id operation_id revision response db).1 j
unfolding complete_revision
complete_revision-Reviews id operation_id revision response db j h = ground arith

claim_feedback_operation-Reviews :
    (id : Uuid) (key fingerprint : String) (changes : List RevisionChange) (digest : String)
    (at : Datetime) (db : Database) (j : Uuid)
    → Reviews db (claim_feedback_operation id key fingerprint changes digest at db).1 j
unfolding claim_feedback_operation
claim_feedback_operation-Reviews id key fingerprint changes digest at db j h = ground arith

claim_retry_operation-Reviews :
    (id : Uuid) (key fingerprint : String) (at : Datetime) (db : Database) (j : Uuid)
    → Reviews db (claim_retry_operation id key fingerprint at db).1 j
unfolding claim_retry_operation
claim_retry_operation-Reviews id key fingerprint at db j h = ground arith

perform-Reviews :
    (c : Call) (db : Database) (j : Uuid) → IsDisciplined c db → Reviews db (perform c db) j
unfolding perform increment_technical_attempt claim_analysis get save_draft save_composition
    fail_revision_operation
perform-Reviews (Call.create run request) db j d = create-Reviews run request db j
perform-Reviews (Call.increment_technical_attempt id) db j d = λ h. ground arith
perform-Reviews (Call.update_status id status now) db j d = elim d [ ]
perform-Reviews (Call.claim_analysis id now) db j d = λ h. ground arith
perform-Reviews (Call.complete_analysis id analysis repair now) db j d =
    complete_analysis-Reviews id analysis repair now db j
perform-Reviews (Call.record_failure id status code now) db j d =
    record_failure-Reviews id status code now db j
perform-Reviews (Call.confirm_brand_lock id proposed at) db j d =
    confirm_brand_lock-Reviews id proposed at db j
perform-Reviews (Call.save_draft id draft) db j d = λ h. ground arith
perform-Reviews (Call.save_composition id composition) db j d = λ h. ground arith
perform-Reviews (Call.save_critique id report) db j d = save_critique-Reviews id report db j
perform-Reviews (Call.claim_feedback_operation id key fingerprint changes digest at) db j d =
    claim_feedback_operation-Reviews id key fingerprint changes digest at db j
perform-Reviews (Call.fail_revision_operation id operation_id condition action at) db j d =
    λ h. ground arith
perform-Reviews (Call.claim_retry_operation id key fingerprint at) db j d =
    claim_retry_operation-Reviews id key fingerprint at db j
perform-Reviews (Call.complete_revision id operation_id revision response) db j d =
    complete_revision-Reviews id operation_id revision response db j

-- No arrow leads back to `pending`.
not-to_pending : (a : ProjectRunStatus) → contains (allowed_transitions a) pending ≡ false
unfolding status_eq
not-to_pending a = ground arith

arrow-ne-pending :
    (a b : ProjectRunStatus) → contains (allowed_transitions a) b ≡ true → (b == pending) ≡ false
arrow-ne-pending a b m = elim (Bool-cases (b == pending)) [
  | inl same ↦
      let there : contains (allowed_transitions a) pending ≡ true =
        rw (← (==_iff b pending).0 same) m in
      cc (there, not-to_pending a)
  | inr other ↦ other
]

Moves-IsStarted : (old new : Option RunRow) → Moves old new → IsStarted old → IsStarted new
Moves-IsStarted none new m h = elim h [ ]
Moves-IsStarted (some r) none m h = elim m [ ]
Moves-IsStarted (some r) (some s) (inl kept) h = rw (kept) h
Moves-IsStarted (some r) (some s) (inr moved) h = arrow-ne-pending r.status s.status moved

-- In every database that the application reaches, a run that was reviewed exists and is not pending.
pub Reached-IsStarted :
    {db : Database}
    → Reached db
    → (j : Uuid) → is_reviewed (db.contexts j) ≡ true
    → IsStarted (db.runs j)
Reached-IsStarted empty j h = cc
Reached-IsStarted (called {db = db} r c d) j h = elim (perform-Reviews c db j d h) [
  | inl before ↦
      Moves-IsStarted (db.runs j) ((perform c db).runs j) (Reached-Moves c r d j)
        (Reached-IsStarted r j before)
  | inr started ↦ started
]
