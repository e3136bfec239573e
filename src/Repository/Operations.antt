-- ===== src/Repository/Operations.antt =====
-- repository.py: the operations that revise a run: claims under an idempotency key, failures and
-- the completion.
use cultureshift.Base.{
  ℕ, ◌+◌, String, Bool, true, false, not, ◌&&◌, ◌||◌, List, [], ◌∷◌, map, Option, none, some, ◌==◌,
  ◌!=◌, nat_eq, string_eq, if◌then◌else◌,
}
use cultureshift.Domain
use cultureshift.Domain.{Uuid, Datetime, ProjectRunStatus, status_eq}
use cultureshift.Contracts.{RevisionChange, RevisionCompleted, is_given}
use cultureshift.Workflow.{
  RetryAction, RetryCondition, retry_once, repair_once, recompose_same_layers_once, retry_action_eq,
}
use cultureshift.Repository.State.{
  put, run_not_found, invalid_run_state, idempotency_conflict, operation_in_progress,
  revision_limit_reached, OperationKind, feedback, retry, operation_kind_eq, OperationState,
  in_progress, succeeded, failed_retryable, failed_final, operation_state_eq, OperationRecord,
  RevisionRecord,
}
use cultureshift.Repository.Monad.{
  Method, pure, raise, ◌>>=◌, ◌>>◌, gets, modify, raise_when, or_raise, transaction,
}
use cultureshift.Repository.Reads.{get_revision}
use cultureshift.Repository.Runs.{write_run, write_context, move_status}
use cultureshift.Repository.Artifacts.{update_context, target_status}

-- The first row of a SELECT.
abbrev pub find_operation : (OperationRecord → Bool) → List OperationRecord → Option OperationRecord
find_operation p [] = none
find_operation p (o ∷ os) = let rest = find_operation p os in if p o then some o else rest

-- `UPDATE project_run_operations SET … WHERE p`
abbrev pub update_operations :
    (OperationRecord → Bool)
    → (OperationRecord → OperationRecord)
    → List OperationRecord
    → List OperationRecord
update_operations p f os = map (λ (o : OperationRecord). if p o then f o else o) os

abbrev pub has_key : Uuid → OperationKind → String → OperationRecord → Bool
has_key run_id kind key_digest o =
    o.run_id == run_id && o.kind == kind && o.key_digest == key_digest

abbrev pub has_state : Uuid → OperationKind → OperationState → OperationRecord → Bool
has_state run_id kind state o = o.run_id == run_id && o.kind == kind && o.state == state

-- What a claim under a key that was used before gives.
abbrev replay : String → OperationRecord → Method OperationRecord
replay fingerprint o =
    if o.fingerprint != fingerprint
    then raise idempotency_conflict
    else if o.state == succeeded
    then pure o
    else raise operation_in_progress

-- INSERT with the next id of the AUTOINCREMENT counter.
abbrev insert_operation : (ℕ → OperationRecord) → Method OperationRecord
insert_operation row = do
  last ← gets (λ db. db.last_operation_id)
  modify (λ db. record db {
    operations = row (last + 1) ∷ db.operations;
    last_operation_id = last + 1;
  })
  pure (row (last + 1))

abbrev pub feedback_row :
    Uuid → String → String → List RevisionChange → String → Datetime → ℕ → OperationRecord
feedback_row run_id key_digest fingerprint changes feedback_digest at id = record {
  id = id;
  run_id = run_id;
  kind = feedback;
  key_digest = key_digest;
  fingerprint = fingerprint;
  state = in_progress;
  requested_changes = changes;
  feedback_digest = some feedback_digest;
  retry_condition = none;
  retry_action = none;
  public_response = none;
  created_at = at;
  updated_at = at;
}

abbrev claim_new_feedback :
    Uuid → String → String → List RevisionChange → String → Datetime → Method OperationRecord
claim_new_feedback run_id key_digest fingerprint changes feedback_digest at = do
  revised ← gets (λ db. db.revisions run_id)
  raise_when (is_given revised) revision_limit_reached
  active ← gets (λ db. find_operation (has_state run_id feedback in_progress) db.operations)
  raise_when (is_given active) operation_in_progress
  run ← or_raise (← gets (λ db. db.runs run_id)) run_not_found
  raise_when (run.status != Domain.ready) invalid_run_state
  operation ←
      insert_operation (feedback_row run_id key_digest fingerprint changes feedback_digest at)
  moved ← move_status run_id Domain.ready Domain.in_progress at
  raise_when (not moved) operation_in_progress
  pure operation

unfoldable pub claim_feedback_operation :
    Uuid → String → String → List RevisionChange → String → Datetime → Method OperationRecord
claim_feedback_operation run_id key_digest fingerprint changes feedback_digest at = transaction (do
  existing ← gets (λ db. find_operation (has_key run_id feedback key_digest) db.operations)
  elim existing [
    | some o ↦ replay fingerprint o
    | none ↦ claim_new_feedback run_id key_digest fingerprint changes feedback_digest at
  ])

-- `UPDATE project_runs SET status, updated_at WHERE id`, whether or not the row is there.
abbrev set_status : Uuid → ProjectRunStatus → Datetime → Method (Unit {0})
set_status id status at = do
  existing ← gets (λ db. db.runs id)
  elim existing [
    | none ↦ pure tt
    | some row ↦ write_run id (record row { status = status; updated_at = at })
  ]

-- The action allows one more attempt.
abbrev pub is_retryable : RetryAction → Bool
is_retryable a = a == retry_once || a == repair_once || a == recompose_same_layers_once

abbrev pub failed_operation :
    RetryCondition → RetryAction → Datetime → OperationRecord → OperationRecord
failed_operation condition action at o = record o {
  state = if is_retryable action then failed_retryable else failed_final;
  retry_condition = some condition;
  retry_action = some action;
  updated_at = at;
}

unfoldable pub fail_revision_operation :
    Uuid → ℕ → RetryCondition → RetryAction → Datetime → Method OperationRecord
fail_revision_operation run_id operation_id condition action at = transaction (do
  let active =
      λ (o : OperationRecord). o.id == operation_id && o.run_id == run_id && o.state == in_progress
  o ← or_raise (← gets (λ db. find_operation active db.operations)) invalid_run_state
  modify (λ db. record db {
    operations = update_operations active (failed_operation condition action at) db.operations;
  })
  set_status run_id (if is_retryable action then Domain.failed_retryable else Domain.failed_final)
      at
  pure (failed_operation condition action at o))

abbrev pub retry_row : Uuid → String → String → OperationRecord → Datetime → ℕ → OperationRecord
retry_row run_id key_digest fingerprint source at id = record {
  id = id;
  run_id = run_id;
  kind = retry;
  key_digest = key_digest;
  fingerprint = fingerprint;
  state = in_progress;
  requested_changes = source.requested_changes;
  feedback_digest = source.feedback_digest;
  retry_condition = source.retry_condition;
  retry_action = source.retry_action;
  public_response = none;
  created_at = at;
  updated_at = at;
}

-- `technical_attempt_count = technical_attempt_count + 1`, whether or not the row is there.
abbrev count_attempt : Uuid → Method (Unit {0})
count_attempt id = do
  existing ← gets (λ db. db.contexts id)
  elim existing [
    | none ↦ pure tt
    | some c ↦
        write_context id (record c { technical_attempt_count = c.technical_attempt_count + 1 })
  ]

abbrev claim_new_retry : Uuid → String → String → Datetime → Method OperationRecord
claim_new_retry run_id key_digest fingerprint at = do
  run ← or_raise (← gets (λ db. db.runs run_id)) run_not_found
  raise_when (run.status != Domain.failed_retryable) invalid_run_state
  source ←
      or_raise
        (← gets (λ db. find_operation (has_state run_id feedback failed_retryable) db.operations))
        invalid_run_state
  operation ← insert_operation (retry_row run_id key_digest fingerprint source at)
  count_attempt run_id
  set_status run_id Domain.in_progress at
  pure operation

unfoldable pub claim_retry_operation : Uuid → String → String → Datetime → Method OperationRecord
claim_retry_operation run_id key_digest fingerprint at = transaction (do
  existing ← gets (λ db. find_operation (has_key run_id retry key_digest) db.operations)
  elim existing [
    | some o ↦ replay fingerprint o
    | none ↦ claim_new_retry run_id key_digest fingerprint at
  ])

abbrev insert_revision : Uuid → RevisionRecord → Method (Unit {0})
insert_revision run_id revision = do
  existing ← gets (λ db. db.revisions run_id)
  raise_when (is_given existing) revision_limit_reached
  modify (λ db. record db { revisions = put run_id revision db.revisions })

abbrev pub succeeded_operation : RevisionCompleted → Datetime → OperationRecord → OperationRecord
succeeded_operation response at o = record o {
  state = succeeded;
  public_response = some response;
  updated_at = at;
}

-- The feedback operations that a completed retry settles.
abbrev settle_feedback : Bool → Uuid → RevisionCompleted → Datetime → Method (Unit {0})
settle_feedback false run_id response at = pure tt
settle_feedback true run_id response at = modify (λ db. record db {
  operations =
      update_operations (has_state run_id feedback failed_retryable)
        (succeeded_operation response at) db.operations;
})

unfoldable pub complete_revision :
    Uuid → ℕ → RevisionRecord → RevisionCompleted → Method RevisionRecord
unfolding get_revision
complete_revision run_id operation_id revision response = do
  transaction (do
    let chosen = λ (o : OperationRecord). o.id == operation_id && o.run_id == run_id
    operation ← or_raise (← gets (λ db. find_operation chosen db.operations)) invalid_run_state
    raise_when (operation.state != in_progress) invalid_run_state
    insert_revision run_id revision
    update_context run_id (λ c. c.human_revision_count == 0)
        (λ c. record c { human_revision_count = 1 }) revision_limit_reached
    modify (λ db. record db {
      operations =
          update_operations (λ o. o.id == operation_id && o.state == in_progress)
            (succeeded_operation response revision.revised_at) db.operations;
    })
    settle_feedback (operation.kind == retry) run_id response revision.revised_at
    set_status run_id (target_status revision.critique) revision.revised_at)
  or_raise (← get_revision run_id) run_not_found
