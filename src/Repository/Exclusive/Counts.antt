-- ===== src/Repository/Exclusive/Counts.antt =====
-- How many operations of a run are active, and what has to hold of a run that has one.
use cultureshift.Base.{
  ℕ, ◌+◌, ◌≤◌, ◌<◌, Bool, true, false, ◌&&◌, List, [], ◌∷◌, Option, none, some, ◌≡◌, refl, arith,
  ◌==◌, nat_eq, if◌then◌else◌,
}
use cultureshift.Domain
use cultureshift.Domain.{
  Uuid, Datetime, ProjectRun, ProjectRunStatus, pending, ready, status_eq, with_status,
  model_validate,
}
use cultureshift.Contracts.{RevisionCompleted, is_given}
use cultureshift.Workflow.{RetryAction, RetryCondition}
use cultureshift.Repository.State.{
  Database, RunRow, ContextRow, OperationRecord, in_progress, operation_state_eq, feedback,
  failed_retryable,
}
use cultureshift.Repository.Reads.{column}
use cultureshift.Repository.Operations.{
  find_operation, update_operations, failed_operation, succeeded_operation, has_state,
}

-- How many operations of a run are active.
unfoldable pub active_count : Uuid → List OperationRecord → ℕ
active_count j [] = 0
active_count j (o ∷ os) =
    (if o.run_id == j && o.state == in_progress then 1 else 0) + active_count j os

active_count-cons :
    (j : Uuid) (o : OperationRecord) (os : List OperationRecord)
    → active_count j (o ∷ os)
      ≡ (if o.run_id == j && o.state == in_progress then 1 else 0) + active_count j os
unfolding active_count
active_count-cons j o os = refl

-- The operation that a failure or a completion names.
abbrev pub is_chosen : Uuid → ℕ → OperationRecord → Bool
is_chosen run_id id o = o.id == id && o.run_id == run_id && o.state == in_progress

module _ (run_id : Uuid) (id : ℕ) (condition : RetryCondition) (action : RetryAction)
    (at : Datetime) where
  abbrev pub after_failure : List OperationRecord → List OperationRecord
  after_failure = update_operations (is_chosen run_id id) (failed_operation condition action at)

  pub active_count-fail_le :
      (j : Uuid) (os : List OperationRecord) → active_count j (after_failure os) ≤ active_count j os
  unfolding active_count operation_state_eq
  active_count-fail_le j [] = omega arith
  active_count-fail_le j (o ∷ os) = ground (arith, active_count-fail_le j os)

  pub active_count-fail :
      (os : List OperationRecord)
      → is_given (find_operation (is_chosen run_id id) os) ≡ true
      → active_count run_id (after_failure os) < active_count run_id os
  unfolding active_count operation_state_eq
  active_count-fail [] e = cc
  active_count-fail (x ∷ os) e =
      ground (arith, active_count-fail os, active_count-fail_le run_id os)

-- The operation that was found is active.
abbrev pub found_active : Option OperationRecord → Bool
found_active none = false
found_active (some o) = o.state == in_progress

module _ (run_id : Uuid) (id : ℕ) (response : RevisionCompleted) (at : Datetime) where
  abbrev pub after_success : List OperationRecord → List OperationRecord
  after_success =
      update_operations (λ o. o.id == id && o.state == in_progress)
        (succeeded_operation response at)

  pub active_count-succeed_le :
      (j : Uuid) (os : List OperationRecord) → active_count j (after_success os) ≤ active_count j os
  unfolding active_count operation_state_eq
  active_count-succeed_le j [] = omega arith
  active_count-succeed_le j (o ∷ os) = ground (arith, active_count-succeed_le j os)

  pub active_count-succeed :
      (os : List OperationRecord)
      → found_active (find_operation (λ o. o.id == id && o.run_id == run_id) os) ≡ true
      → active_count run_id (after_success os) < active_count run_id os
  unfolding active_count operation_state_eq
  active_count-succeed [] e = cc
  active_count-succeed (x ∷ os) e =
      ground (arith, active_count-succeed os, active_count-succeed_le run_id os)

  abbrev pub after_settling : List OperationRecord → List OperationRecord
  after_settling =
      update_operations (has_state run_id feedback failed_retryable)
        (succeeded_operation response at)

  pub active_count-settle :
      (j : Uuid) (os : List OperationRecord)
      → active_count j (after_settling os) ≡ active_count j os
  unfolding active_count operation_state_eq
  active_count-settle j [] = refl
  active_count-settle j (o ∷ os) = ground (arith, active_count-settle j os)

abbrev pub HasStatus : Option RunRow → ProjectRunStatus → Type 0
HasStatus none s = ⊥
HasStatus (some r) s = r.status ≡ s

abbrev pub IsReviewed : Option ContextRow → Type 0
IsReviewed c = is_given (column (λ c. c.critique) c) ≡ true

-- A run, its context, and the number of its active operations.
pub record IsExclusive (run : Option RunRow) (context : Option ContextRow) (active : ℕ)
    : Type 0 where
  pub one_active : active ≤ 1
  pub active_works : 0 < active → HasStatus run Domain.in_progress
  pub active_reviewed : 0 < active → IsReviewed context
  pub ready_reviewed : HasStatus run ready → IsReviewed context
  pub retryable_reviewed : HasStatus run Domain.failed_retryable → IsReviewed context

abbrev pub Exclusive : Database → Type 0
Exclusive db = (j : Uuid) → IsExclusive (db.runs j) (db.contexts j) (active_count j db.operations)
