-- ===== src/Repository/Exclusive.antt =====
-- At most one revision operation of a run is active, and the run is in progress meanwhile. This
-- holds for clients that keep the discipline of the application.
pub mod Counts
pub mod Generations
pub mod Revisions
use cultureshift.Base.{
  ℕ, ◌+◌, ◌≤◌, ◌<◌, String, Bool, true, false, ◌&&◌, List, [], ◌∷◌, Option, none, some, ◌≡◌, ◌⊎◌,
  refl, arith, ◌==◌, nat_eq, if◌then◌else◌,
}
use cultureshift.Domain
use cultureshift.Domain.{
  Uuid, Datetime, ProjectRun, ProjectRunStatus, pending, ready, status_eq, with_status,
  model_validate,
}
use cultureshift.Contracts.{
  AdAnalysis, BrandLock, CompositionGenerated, CritiqueReport, RevisionChange, RevisionCompleted,
  RunCreate, is_given,
}
use cultureshift.Workflow.{RetryAction, RetryCondition}
use cultureshift.Repository.State.{
  Database, RunRow, ContextRow, RevisionRecord, DraftRecord, OperationRecord, in_progress,
  operation_state_eq, feedback, failed_retryable, empty_database,
}
use cultureshift.Repository.Reads.{column, get, get_request_unchanged}
use cultureshift.Repository.Runs.{
  create, increment_technical_attempt, claim_analysis, complete_analysis, record_failure,
}
use cultureshift.Repository.Artifacts.{
  confirm_brand_lock, save_draft, save_composition, save_critique, target_status,
}
use cultureshift.Repository.Operations.{
  claim_feedback_operation, fail_revision_operation, claim_retry_operation, complete_revision,
  find_operation, update_operations, failed_operation, succeeded_operation, has_state,
}
use cultureshift.Repository.Calls.{Call, perform}
use cultureshift.Repository.Exclusive.Generations.{
  confirm_brand_lock-Exclusive, save_critique-Exclusive, complete_analysis-Exclusive,
  record_failure-Exclusive, create-Exclusive, claim_analysis-Exclusive,
  increment_technical_attempt-Exclusive, save_draft-Exclusive, save_composition-Exclusive,
}
use cultureshift.Repository.Exclusive.Revisions.{
  claim_feedback_operation-Exclusive, claim_retry_operation-Exclusive,
  fail_revision_operation-Exclusive, complete_revision-Exclusive,
}
pub use Counts.{
  active_count, active_count-fail, active_count-succeed, HasStatus, IsReviewed, IsExclusive,
  Exclusive,
}

-- What the application keeps to: a run is created pending, an analysis is completed or failed
-- before the run is reviewed, and nobody sets a status by hand.
abbrev pub IsDisciplined : Call → Database → Type 0
IsDisciplined (Call.create run request) db = run.status ≡ pending
IsDisciplined (Call.update_status id status now) db = ⊥
IsDisciplined (Call.complete_analysis id analysis repair now) db =
    is_given (column (λ c. c.critique) (db.contexts id)) ≡ false
IsDisciplined (Call.record_failure id status code now) db =
    is_given (column (λ c. c.critique) (db.contexts id)) ≡ false
IsDisciplined _ db = Unit

pub perform-Exclusive :
    (c : Call) (db : Database) → IsDisciplined c db → Exclusive db → Exclusive (perform c db)
unfolding perform
perform-Exclusive (Call.create run request) db d h = create-Exclusive run request db d h
perform-Exclusive (Call.increment_technical_attempt id) db d h =
    increment_technical_attempt-Exclusive id db h
perform-Exclusive (Call.update_status id status now) db d h = elim d [ ]
perform-Exclusive (Call.claim_analysis id now) db d h = claim_analysis-Exclusive id now db h
perform-Exclusive (Call.complete_analysis id analysis repair now) db d h =
    complete_analysis-Exclusive id analysis repair now db d h
perform-Exclusive (Call.record_failure id status code now) db d h =
    record_failure-Exclusive id status code now db d h
perform-Exclusive (Call.confirm_brand_lock id proposed at) db d h =
    confirm_brand_lock-Exclusive id proposed at db h
perform-Exclusive (Call.save_draft id draft) db d h = save_draft-Exclusive id draft db h
perform-Exclusive (Call.save_composition id composition) db d h =
    save_composition-Exclusive id composition db h
perform-Exclusive (Call.save_critique id report) db d h = save_critique-Exclusive id report db h
perform-Exclusive (Call.claim_feedback_operation id key fingerprint changes digest at) db d h =
    claim_feedback_operation-Exclusive id key fingerprint changes digest at db h
perform-Exclusive (Call.fail_revision_operation id operation_id condition action at) db d h =
    fail_revision_operation-Exclusive id operation_id condition action at db h
perform-Exclusive (Call.claim_retry_operation id key fingerprint at) db d h =
    claim_retry_operation-Exclusive id key fingerprint at db h
perform-Exclusive (Call.complete_revision id operation_id revision response) db d h =
    complete_revision-Exclusive id operation_id revision response db h

-- The databases that disciplined calls reach from an empty one.
pub data Reached : Database → Type 0 where
  empty : Reached empty_database
  called : {db : Database} → Reached db → (c : Call) → IsDisciplined c db → Reached (perform c db)

-- In every database that the application reaches: a run has at most one active revision operation;
-- while it has one the run is in progress and was reviewed; and a run that is ready, or that may be
-- retried, was reviewed.
pub Reached-Exclusive : {db : Database} → Reached db → Exclusive db
unfolding active_count
Reached-Exclusive empty = λ j. ground arith
Reached-Exclusive (called {db = db} r c d) = perform-Exclusive c db d (Reached-Exclusive r)
