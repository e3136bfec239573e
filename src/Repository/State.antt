-- ===== src/Repository/State.antt =====
-- repository.py: the four tables, and the records that the methods return. A JSON column holds the
-- value whose text the code stores; a table with a primary key is a function of the key.
use cultureshift.Base.{ℕ, String, List, [], Option, none, some, Eq, ◌==◌, nat_eq, if◌then◌else◌}
use cultureshift.Domain.{Uuid, LocalizationDirection, ProjectRunStatus, Datetime}
use cultureshift.Contracts.{
  AdAnalysis, AdCopy, BrandLock, CompositionGenerated, CreativeBrief, CritiqueReport,
  RevisionChange, RevisionCompleted, RunCreate,
}
use cultureshift.Confirmation.{ConfirmationErrorCode}
use cultureshift.Workflow.{RetryAction, RetryCondition}

-- The exceptions of the methods; `value_error` is also what pydantic raises.
pub data RepositoryError : Type 0 where
  value_error run_not_found duplicate_run brand_lock_immutable : RepositoryError
  invalid_run_state draft_immutable composition_immutable critique_immutable : RepositoryError
  idempotency_conflict operation_in_progress revision_limit_reached : RepositoryError
  confirmation_refused : ConfirmationErrorCode → RepositoryError

pub data OperationKind : Type 0 where
  feedback retry : OperationKind

unfoldable pub OperationKind-discrete : Discrete OperationKind
OperationKind-discrete = hlevel

instance unfoldable pub operation_kind_eq : Eq OperationKind
unfolding OperationKind-discrete
operation_kind_eq = record { dec = OperationKind-discrete }

pub data OperationState : Type 0 where
  in_progress succeeded failed_retryable failed_final : OperationState

unfoldable pub OperationState-discrete : Discrete OperationState
OperationState-discrete = hlevel

instance unfoldable pub operation_state_eq : Eq OperationState
unfolding OperationState-discrete
operation_state_eq = record { dec = OperationState-discrete }

pub record BrandLockConfirmationRecord : Type 0 where
  pub brand_lock : BrandLock
  pub confirmed_at : Datetime

pub record DraftRecord : Type 0 where
  pub brief : CreativeBrief
  pub ad_copy : AdCopy
  pub fact_references : List String
  pub rule_ids : List String
  pub generated_at : Datetime

pub record CritiqueRecord : Type 0 where
  pub report : CritiqueReport
  pub reviewed_at : Datetime

-- `result_version` is always 2 and is left out.
pub record RevisionRecord : Type 0 where
  pub run_id : Uuid
  pub requested_changes : List RevisionChange
  pub feedback_digest : String
  pub draft : DraftRecord
  pub composition : CompositionGenerated
  pub critique : CritiqueReport
  pub revised_at : Datetime

-- A row of `project_run_operations`, which `_operation_record` returns field by field.
pub record OperationRecord : Type 0 where
  pub id : ℕ
  pub run_id : Uuid
  pub kind : OperationKind
  pub key_digest : String
  pub fingerprint : String
  pub state : OperationState
  pub requested_changes : List RevisionChange
  pub feedback_digest : Option String
  pub retry_condition : Option RetryCondition
  pub retry_action : Option RetryAction
  pub public_response : Option RevisionCompleted
  pub created_at : Datetime
  pub updated_at : Datetime

-- A row of `project_runs`; its key is the run's id.
pub record RunRow : Type 0 where
  pub direction : LocalizationDirection
  pub status : ProjectRunStatus
  pub warning_codes : List String
  pub created_at : Datetime
  pub updated_at : Datetime

-- A row of `project_run_contexts`; its key is the run's id, and `none` is NULL.
pub record ContextRow : Type 0 where
  pub request : RunCreate
  pub analysis : Option AdAnalysis
  pub repair_attempted : ℕ
  pub confirmed_brand_lock : Option BrandLock
  pub brand_lock_confirmed_at : Option Datetime
  pub creative_brief : Option CreativeBrief
  pub ad_copy : Option AdCopy
  pub draft_fact_references : Option (List String)
  pub draft_rule_ids : Option (List String)
  pub draft_generated_at : Option Datetime
  pub composition : Option CompositionGenerated
  pub critique : Option CritiqueReport
  pub critic_reviewed_at : Option Datetime
  pub initial_generation_count : ℕ
  pub human_revision_count : ℕ
  pub technical_attempt_count : ℕ

-- `last_operation_id` is the AUTOINCREMENT counter; the operations stand newest first.
pub record Database : Type 0 where
  pub runs : Uuid → Option RunRow
  pub contexts : Uuid → Option ContextRow
  pub revisions : Uuid → Option RevisionRecord
  pub operations : List OperationRecord
  pub last_operation_id : ℕ

-- A table after a row is written.
abbrev pub put : {A : Type 0} → Uuid → A → (Uuid → Option A) → Uuid → Option A
put k v table j = if j == k then some v else table j

-- `initialize` on a new file.
abbrev pub empty_database : Database
empty_database = record {
  runs = λ k. none;
  contexts = λ k. none;
  revisions = λ k. none;
  operations = [];
  last_operation_id = 0;
}
