-- ===== src/Repository/Calls.antt =====
-- repository.py: every method that writes, as one type of calls, and the runs of clients that make
-- them in any order. A run interleaves whole calls.
use cultureshift.Base.{ℕ, String, Bool, List, [], ◌∷◌, Option}
use cultureshift.Domain.{Uuid, Datetime, ProjectRun, ProjectRunStatus}
use cultureshift.Contracts.{
  AdAnalysis, BrandLock, CompositionGenerated, CritiqueReport, RevisionChange, RevisionCompleted,
  RunCreate,
}
use cultureshift.Workflow.{RetryAction, RetryCondition}
use cultureshift.Repository.State.{Database, RevisionRecord, DraftRecord}
use cultureshift.Repository.Runs
use cultureshift.Repository.Artifacts
use cultureshift.Repository.Operations

pub data Call : Type 0 where
  create : ProjectRun → Option RunCreate → Call
  increment_technical_attempt : Uuid → Call
  update_status : Uuid → ProjectRunStatus → Datetime → Call
  claim_analysis : Uuid → Datetime → Call
  complete_analysis : Uuid → AdAnalysis → Bool → Datetime → Call
  record_failure : Uuid → ProjectRunStatus → String → Datetime → Call
  confirm_brand_lock : Uuid → BrandLock → Datetime → Call
  save_draft : Uuid → DraftRecord → Call
  save_composition : Uuid → CompositionGenerated → Call
  save_critique : Uuid → CritiqueReport → Call
  claim_feedback_operation : Uuid → String → String → List RevisionChange → String → Datetime → Call
  fail_revision_operation : Uuid → ℕ → RetryCondition → RetryAction → Datetime → Call
  claim_retry_operation : Uuid → String → String → Datetime → Call
  complete_revision : Uuid → ℕ → RevisionRecord → RevisionCompleted → Call

-- The database after a call, whether it returned or raised.
unfoldable pub perform : Call → Database → Database
perform (create run request) db = (Runs.create run request db).1
perform (increment_technical_attempt id) db = (Runs.increment_technical_attempt id db).1
perform (update_status id status now) db = (Runs.update_status id status now db).1
perform (claim_analysis id now) db = (Runs.claim_analysis id now db).1
perform (complete_analysis id analysis repair now) db =
    (Runs.complete_analysis id analysis repair now db).1
perform (record_failure id status code now) db = (Runs.record_failure id status code now db).1
perform (confirm_brand_lock id proposed at) db = (Artifacts.confirm_brand_lock id proposed at db).1
perform (save_draft id draft) db = (Artifacts.save_draft id draft db).1
perform (save_composition id composition) db = (Artifacts.save_composition id composition db).1
perform (save_critique id report) db = (Artifacts.save_critique id report db).1
perform (claim_feedback_operation id key fingerprint changes digest at) db =
    (Operations.claim_feedback_operation id key fingerprint changes digest at db).1
perform (fail_revision_operation id operation_id condition action at) db =
    (Operations.fail_revision_operation id operation_id condition action at db).1
perform (claim_retry_operation id key fingerprint at) db =
    (Operations.claim_retry_operation id key fingerprint at db).1
perform (complete_revision id operation_id revision response) db =
    (Operations.complete_revision id operation_id revision response db).1

unfoldable pub perform_all : List Call → Database → Database
unfolding perform
perform_all [] db = db
perform_all (c ∷ cs) db = perform_all cs (perform c db)
