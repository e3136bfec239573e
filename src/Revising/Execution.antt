-- ===== src/Revising/Execution.antt =====
-- revision_service.py: `_execute`, from the reads of version one to the stored version two, and what
-- it does when a step raises.
use cultureshift.Base.{string_eq, Bool, false, not, if◌then◌else◌}
use cultureshift.Base.Result.{Result, ok, err}
use cultureshift.Domain.{Uuid, ProjectRun, ready, failed_final, utc}
use cultureshift.Contracts.{
  CompositionGenerated, CritiqueReport, critique_status_eq, execution_mode_eq, RevisionCompleted,
  revision_completed_valid,
}
use cultureshift.Workflow.{RetryAction, RetryCondition}
use cultureshift.Repository.State.{
  OperationRecord, RevisionRecord, DraftRecord, invalid_run_state, idempotency_conflict,
  operation_in_progress, revision_limit_reached,
}
use cultureshift.Repository.Reads.{get}
use cultureshift.Repository.Operations.{complete_revision, fail_revision_operation}
use cultureshift.Revision.{RevisionArtifacts, revise}
use cultureshift.Critic.{review}
use cultureshift.Revising.Session.{
  ServiceError, Failure, repository, technical, Studio, Inputs, World, Session, Step, ◌>>=◌, ◌>>◌,
  give, fail_when, with_database, call,
}
use cultureshift.Revising.Composing.{
  from_get, VersionOne, is_reject, read_version_one, from_revision, from_critic, digest_or,
  compose_again,
}

-- The values that `_execute` stores and returns.
pub record Prepared : Type 0 where
  pub run_id : Uuid
  pub revision : RevisionRecord
  pub response : RevisionCompleted

abbrev pub complete_prepared :
    {Store : Type 0} → OperationRecord → Prepared → Step Store RevisionCompleted
complete_prepared operation p = do
  stored ← call repository (complete_revision p.run_id operation.id p.revision p.response)
  give (ok p.response)

-- What a technical failure allows.
abbrev pub failed_action : Bool → RetryAction
failed_action retrying = if retrying then RetryAction.do_not_retry else RetryAction.retry_once

module _ {Store : Type 0} (studio : Studio Store) where
  abbrev completed_response :
      VersionOne
      → RevisionArtifacts
      → CompositionGenerated
      → CritiqueReport
      → ProjectRun
      → RevisionCompleted
  completed_response v revised composition report current = record {
    run_id = v.run.id;
    status = if is_reject report then failed_final else ready;
    previous_composition = v.composition;
    brief = revised.brief;
    ad_copy = revised.ad_copy;
    composition = composition;
    critique = report;
    technical_attempt_count = current.technical_attempt_count;
    revised_at = report.reviewed_at;
  }

  abbrev revised_draft : Inputs → RevisionArtifacts → DraftRecord
  revised_draft inputs revised = record {
    brief = revised.brief;
    ad_copy = revised.ad_copy;
    fact_references = revised.fact_references;
    rule_ids = revised.rule_ids;
    generated_at = utc inputs.generated_at;
  }

  -- The review of the second composition, and the values that are to be stored.
  unfoldable pub assess :
      OperationRecord
      → Inputs
      → VersionOne
      → RevisionArtifacts
      → CompositionGenerated
      → Step Store Prepared
  assess operation inputs v revised composition = do
    let draft = revised_draft inputs revised
    report ← give (
        from_critic (
          review studio.casefold
            (record {
              analysis = v.analysis;
              confirmed_brand_lock = v.lock;
              draft = draft;
              composition = composition;
              warning_codes = v.run.warning_codes;
            })
            inputs.reviewed_at))
    current ← call from_get (get v.run.id)
    let response = completed_response v revised composition report current
    fail_when (not (revision_completed_valid response)) technical
    give (
        ok (record {
          run_id = v.run.id;
          revision = record {
            run_id = v.run.id;
            requested_changes = operation.requested_changes;
            feedback_digest = digest_or studio.digest operation.feedback_digest;
            draft = draft;
            composition = composition;
            critique = report;
            revised_at = utc report.reviewed_at;
          };
          response = response;
        }))

  -- Version two from version one.
  unfoldable pub revise_version : OperationRecord → Inputs → VersionOne → Step Store Prepared
  revise_version operation inputs v = do
    revised ← give (from_revision (revise v.run.direction v.draft operation.requested_changes))
    composition ← compose_again studio inputs v revised
    assess operation inputs v revised composition

  -- The body of the `try` of `_execute`, up to the values that are to be stored.
  unfoldable pub prepare : OperationRecord → Inputs → Step Store Prepared
  prepare operation inputs = do
    v ← read_version_one operation.run_id
    revise_version operation inputs v

  -- The whole body of the `try`.
  unfoldable pub version_two : OperationRecord → Inputs → Step Store RevisionCompleted
  version_two operation inputs = do
    prepared ← prepare operation inputs
    complete_prepared operation prepared

  -- `if artifact_saved: self._artifact_store.delete(artifact_id)`
  abbrev clean_up : Inputs → Session Store → Result Failure Bool × World Store
  clean_up inputs s =
      if s.artifact_saved
      then (let (r, store) = studio.delete inputs.artifact_id s.world.store in
          (r, record s.world { store = store }))
      else (ok false, s.world)

  -- What the caller is told of a failure.
  abbrev pub error_code : Bool → Failure → ServiceError
  error_code retrying (repository idempotency_conflict) = ServiceError.idempotency_conflict
  error_code retrying (repository operation_in_progress) = ServiceError.operation_in_progress
  error_code retrying (repository revision_limit_reached) = ServiceError.revision_limit_reached
  error_code retrying (repository invalid_run_state) = ServiceError.invalid_run_state
  error_code retrying e =
      if retrying then ServiceError.retry_failed else ServiceError.revision_failed

  -- Only a technical failure is recorded; what the repository raises then is suppressed.
  abbrev record_technical : OperationRecord → Bool → Inputs → Failure → World Store → World Store
  record_technical operation retrying inputs technical w =
      with_database
        (fail_revision_operation operation.run_id operation.id
          RetryCondition.connection_before_acceptance (failed_action retrying)
          (utc inputs.failed_at) w.database).1
        w
  record_technical operation retrying inputs e w = w

  -- The `except` clauses of `_execute`.
  unfoldable pub recover :
      OperationRecord
      → Bool
      → Inputs
      → Failure
      → Session Store
      → Result ServiceError RevisionCompleted × World Store
  recover operation retrying inputs e s =
      let (deleted, w) = clean_up inputs s in
      elim deleted [
        | err _ ↦ (err ServiceError.uncaught, w)
        | ok _ ↦ (err (error_code retrying e), record_technical operation retrying inputs e w)
      ]

  -- `_execute`
  unfoldable pub execute :
      OperationRecord
      → Bool
      → Inputs
      → World Store
      → Result ServiceError RevisionCompleted × World Store
  execute operation retrying inputs w =
      let (r, s) = version_two operation inputs (record { world = w; artifact_saved = false }) in
      elim r [
        | ok response ↦ (ok response, s.world)
        | err e ↦ recover operation retrying inputs e s
      ]
