-- ===== src/Repository/Exclusive/Revisions.antt =====
-- The methods that claim, fail and complete an operation keep a run exclusive.
use cultureshift.Base.{
  ℕ, String, true, ◌&&◌, List, Option, none, some, ◌≡◌, ◌⊎◌, arith, ◌==◌, nat_eq, if◌then◌else◌,
}
use cultureshift.Domain.{Uuid, Datetime, status_eq}
use cultureshift.Contracts.{RevisionChange, RevisionCompleted, is_given}
use cultureshift.Workflow.{RetryAction, RetryCondition}
use cultureshift.Repository.State.{Database, RunRow, RevisionRecord, operation_state_eq}
use cultureshift.Repository.Reads.{column}
use cultureshift.Repository.Artifacts.{target_status}
use cultureshift.Repository.Operations.{
  claim_feedback_operation, fail_revision_operation, claim_retry_operation, complete_revision,
  find_operation,
}
use cultureshift.Repository.Exclusive.Counts.{
  active_count, active_count-fail_le, active_count-fail, found_active, after_success,
  active_count-succeed_le, active_count-succeed, after_settling, active_count-settle, Exclusive,
}

pub claim_feedback_operation-Exclusive :
    (id : Uuid) (key fingerprint : String) (changes : List RevisionChange) (digest : String)
    (at : Datetime) (db : Database)
    → Exclusive db
    → Exclusive (claim_feedback_operation id key fingerprint changes digest at db).1
unfolding claim_feedback_operation status_eq operation_state_eq active_count
claim_feedback_operation-Exclusive id key fingerprint changes digest at db h j = ground (arith, h j)

pub claim_retry_operation-Exclusive :
    (id : Uuid) (key fingerprint : String) (at : Datetime) (db : Database)
    → Exclusive db
    → Exclusive (claim_retry_operation id key fingerprint at db).1
unfolding claim_retry_operation status_eq operation_state_eq active_count
claim_retry_operation-Exclusive id key fingerprint at db h j = ground (arith, h j)

pub fail_revision_operation-Exclusive :
    (id : Uuid) (operation_id : ℕ) (condition : RetryCondition) (action : RetryAction)
    (at : Datetime) (db : Database)
    → Exclusive db
    → Exclusive (fail_revision_operation id operation_id condition action at db).1
unfolding fail_revision_operation
fail_revision_operation-Exclusive id operation_id condition action at db h j = ground (
  arith,
  h j,
  active_count-fail_le id operation_id condition action at j db.operations,
  active_count-fail id operation_id condition action at db.operations,
)

-- The run after a completed revision.
abbrev revised_run : RevisionRecord → Option RunRow → Option RunRow
revised_run revision none = none
revised_run revision (some r) =
    some (record r { status = target_status revision.critique; updated_at = revision.revised_at })

-- A completion leaves the database, or it settles the operation that it names, which was active, and
-- moves the run of that operation.
complete_revision_effect :
    (id : Uuid) (operation_id : ℕ) (revision : RevisionRecord) (response : RevisionCompleted)
    (db : Database) (j : Uuid)
    → let after = (complete_revision id operation_id revision response db).1 in
      let finished = after_success id operation_id response revision.revised_at db.operations in
      (after ≡ db)
      ⊎ ((found_active (find_operation (λ o. o.id == operation_id && o.run_id == id) db.operations)
            ≡ true)
          × ((after.operations ≡ finished)
              ⊎ (after.operations
                  ≡ after_settling id operation_id response revision.revised_at finished))
          × (is_given (column (λ c. c.critique) (after.contexts j))
              ≡ is_given (column (λ c. c.critique) (db.contexts j)))
          × (after.runs j ≡ (if j == id then revised_run revision (db.runs j) else db.runs j)))
unfolding complete_revision operation_state_eq
complete_revision_effect id operation_id revision response db j = ground arith

pub complete_revision-Exclusive :
    (id : Uuid) (operation_id : ℕ) (revision : RevisionRecord) (response : RevisionCompleted)
    (db : Database)
    → Exclusive db
    → Exclusive (complete_revision id operation_id revision response db).1
complete_revision-Exclusive id operation_id revision response db h j =
    let at = revision.revised_at in
    let finished = after_success id operation_id response at db.operations in
    ground (
      arith,
      h j,
      complete_revision_effect id operation_id revision response db j,
      active_count-succeed_le id operation_id response at j db.operations,
      active_count-settle id operation_id response at j finished,
      active_count-succeed id operation_id response at db.operations,
    )
