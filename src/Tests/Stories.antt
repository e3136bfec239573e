-- ===== src/Tests/Stories.antt =====
-- Runs of the repository, and its theorems at them.
pub mod Studio
pub mod Requests
pub mod Served
pub mod Stores
pub mod Files
use cultureshift.Base.{
  false, List, [], ◌∷◌, ◌++◌, Option, none, some, ◌≡◌, refl, ◌==◌, ◌&&◌, nat_eq, string_eq,
}
use cultureshift.Base.Result.{ok, err}
use cultureshift.Domain.{
  utc, status_eq, ready, in_progress, failed_retryable, model_validate, warning_codes_valid,
}
use cultureshift.Base.Int
use cultureshift.Domain
use cultureshift.Contracts
use cultureshift.Confirmation
use cultureshift.Workflow
use cultureshift.Repository.Reads
use cultureshift.Repository.Reads.{revision_record}
use cultureshift.Repository.Runs
use cultureshift.Repository.Artifacts
use cultureshift.Repository.Operations
use cultureshift.Contracts.{RevisionChange}
use cultureshift.Workflow.{RetryCondition, RetryAction}
use cultureshift.Repository.State.{
  Database, OperationRecord, OperationState, feedback, retry, revision_limit_reached,
  operation_kind_eq, operation_state_eq, empty_database,
}
use cultureshift.Repository.Calls.{Call, perform, perform_all}
use cultureshift.Repository.Immutable.{Keeps, perform_all-Keeps}
use cultureshift.Repository.Consistent.{Consistent, reached-Consistent}
use cultureshift.Repository.Statuses.{Moves}
use cultureshift.Repository.Exclusive.{
  Exclusive, Reached, empty, called, Reached-Exclusive, HasStatus,
}
use cultureshift.Repository.Lifecycle.{Reached-Moves, same, further, Later-final}
use cultureshift.Repository.Idempotency.{
  Replays, claim_feedback_operation-Replays, claim_retry_operation-Replays,
  complete_revision-replay, complete_retry-replay, complete_revision-limit,
}
use cultureshift.Repository.Operations.{
  find_operation, has_key, feedback_row, retry_row, failed_operation, succeeded_operation,
  claim_feedback_operation, claim_retry_operation, complete_revision,
}
use cultureshift.Tests.Data.{
  run, request, analysis, lock, draft, composition, report, revision, response,
}

-- A run up to its first review.
abbrev pub reviewed : List Call
reviewed =
    Call.create run (some request)
    ∷ Call.claim_analysis 1 (utc 200)
    ∷ Call.complete_analysis 1 analysis false (utc 300)
    ∷ Call.confirm_brand_lock 1 lock (utc 400)
    ∷ Call.save_draft 1 draft
    ∷ Call.save_composition 1 (composition 30)
    ∷ Call.save_critique 1 report
    ∷ []

abbrev pub claim : Call
claim = Call.claim_feedback_operation 1 "k" "p" (RevisionChange.shorten_body ∷ []) "f" (utc 800)

abbrev pub after : List Call → Database
after cs = perform_all cs empty_database

-- Runs calls; what unfolds this unfolds all that the calls compute with.
machine : List Call → Database
unfolding perform_all perform Artifacts.save_critique Artifacts.save_composition nat_eq string_eq
    status_eq Artifacts.save_draft Domain.is_utc Artifacts.confirm_brand_lock Runs.create
    Runs.complete_analysis Runs.claim_analysis Runs.increment_technical_attempt Runs.record_failure
    Runs.update_status Reads.get Reads.get_request Domain.with_status Domain.model_validate
    Domain.warning_codes_valid Domain.is_warning_code Domain.direction_eq Contracts.brand_lock_eq
    Contracts.asset_ref_eq Contracts.ad_copy_eq Contracts.creative_brief_eq
    Contracts.localizable_field_eq Contracts.strings_eq Contracts.uuids_eq Contracts.composition_eq
    Contracts.layer_kind_eq Contracts.critique_report_eq Contracts.critique_status_eq
    Confirmation.validate_brand_lock_confirmation Artifacts.shows_lock
    Operations.claim_feedback_operation Operations.claim_retry_operation
    Operations.complete_revision Operations.fail_revision_operation Reads.confirmation_record
    Reads.critique_record Reads.draft_record operation_kind_eq operation_state_eq
    Workflow.retry_action_eq Contracts.CulturalHypothesis-discrete Contracts.AdAnalysis-discrete
    Contracts.CompositionLayer-discrete Contracts.CritiqueIssue-discrete Contracts.Locale-discrete
    Domain.LocalizationDirection-discrete Int.ℤ-discrete
machine cs = perform_all cs empty_database

status_at : Database → Option Domain.ProjectRunStatus
status_at db = elim (db.runs 1) [ none ↦ none | some r ↦ some r.status ]

reviewed_ready : status_at (machine reviewed) ≡ some ready
unfolding status_at machine
reviewed_ready = refl

-- The application reaches the reviewed run.
Reached-reviewed : Reached (after reviewed)
unfolding perform_all machine
Reached-reviewed =
    called
      (called
        (called
          (called
            (called
              (called (called empty (Call.create run (some request)) refl)
                (Call.claim_analysis 1 (utc 200)) tt)
              (Call.complete_analysis 1 analysis false (utc 300)) refl)
            (Call.confirm_brand_lock 1 lock (utc 400)) tt)
          (Call.save_draft 1 draft) tt)
        (Call.save_composition 1 (composition 30)) tt)
      (Call.save_critique 1 report) tt

Reached-claimed : Reached (perform claim (after reviewed))
Reached-claimed = called Reached-reviewed claim tt

Reached-Moves_example : Moves ((after reviewed).runs 1) ((perform claim (after reviewed)).runs 1)
Reached-Moves_example = Reached-Moves claim Reached-reviewed tt 1

perform_all-Keeps_example : Keeps (after reviewed) (perform_all (claim ∷ []) (after reviewed))
perform_all-Keeps_example = perform_all-Keeps (claim ∷ []) (after reviewed)

reached-Consistent_example : Consistent (after reviewed)
reached-Consistent_example = reached-Consistent reviewed

Reached-Exclusive_example : Exclusive (perform claim (after reviewed))
Reached-Exclusive_example = Reached-Exclusive Reached-claimed

-- A run that failed.
abbrev stopped : List Call
stopped =
    Call.create run (some request)
    ∷ Call.claim_analysis 1 (utc 200)
    ∷ Call.record_failure 1 Domain.failed "safety_refusal" (utc 300)
    ∷ []

Reached-stopped : Reached (after stopped)
unfolding perform_all machine
Reached-stopped =
    called
      (called (called empty (Call.create run (some request)) refl) (Call.claim_analysis 1 (utc 200))
        tt)
      (Call.record_failure 1 Domain.failed "safety_refusal" (utc 300)) refl

stopped_failed : HasStatus ((after stopped).runs 1) Domain.failed
unfolding machine
stopped_failed = refl

Later-final_example :
    HasStatus ((perform (Call.claim_analysis 1 (utc 400)) (after stopped)).runs 1) Domain.failed
Later-final_example =
    Later-final 1 Domain.failed Reached-stopped refl stopped_failed
      (further same (Call.claim_analysis 1 (utc 400)) tt)

abbrev claimed : Database
claimed = after (reviewed ++ (claim ∷ []))

-- The feedback operation that `claim` inserts.
abbrev feedback_operation : OperationRecord
feedback_operation = feedback_row 1 "k" "p" (RevisionChange.shorten_body ∷ []) "f" (utc 800) 1

claimed_operation :
    find_operation (has_key 1 feedback "k") claimed.operations ≡ some feedback_operation
unfolding machine
claimed_operation = refl

completed_ok : (complete_revision 1 1 revision response claimed).0 ≡ ok (revision_record revision)
unfolding machine
completed_ok = refl

claim_feedback_operation-Replays_example :
    Replays "other" feedback_operation claimed
      (claim_feedback_operation 1 "k" "other" [] "f" (utc 850) claimed)
claim_feedback_operation-Replays_example =
    claim_feedback_operation-Replays 1 "k" "other" [] "f" (utc 850) claimed claimed_operation

complete_revision-replay_example :
    claim_feedback_operation 1 "k" "p" [] "f"
      (utc 950)
      (complete_revision 1 1 revision response claimed).1
    ≡ (
      ok (succeeded_operation response (utc 900) feedback_operation),
      (complete_revision 1 1 revision response claimed).1,
    )
complete_revision-replay_example =
    complete_revision-replay 1 1 revision response claimed completed_ok "k" "p" [] "f" (utc 950)
      claimed_operation refl refl refl

unused_key :
    find_operation
      (has_key 1 feedback "l")
      (complete_revision 1 1 revision response claimed).1.operations
    ≡ none
unfolding machine
unused_key = refl

complete_revision-limit_example :
    claim_feedback_operation 1 "l" "p" [] "f"
      (utc 950)
      (complete_revision 1 1 revision response claimed).1
    ≡ (err revision_limit_reached, (complete_revision 1 1 revision response claimed).1)
complete_revision-limit_example =
    complete_revision-limit 1 1 revision response claimed completed_ok "l" "p" [] "f" (utc 950)
      unused_key

-- A feedback operation that failed, and a retry of it under way.
abbrev retried : Database
retried = after (
    reviewed
    ++ (claim
        ∷ Call.fail_revision_operation 1 1 RetryCondition.connection_before_acceptance
            RetryAction.retry_once (utc 810)
        ∷ Call.claim_retry_operation 1 "r" "q" (utc 820)
        ∷ []))

abbrev failed_feedback : OperationRecord
failed_feedback =
    failed_operation RetryCondition.connection_before_acceptance RetryAction.retry_once (utc 810)
      feedback_operation

retried_feedback : find_operation (has_key 1 feedback "k") retried.operations ≡ some failed_feedback
unfolding machine
retried_feedback = refl

retried_chosen :
    find_operation (λ o. o.id == 2 && o.run_id == 1) retried.operations
    ≡ some (retry_row 1 "r" "q" failed_feedback (utc 820) 2)
unfolding machine
retried_chosen = refl

retry_ok : (complete_revision 1 2 revision response retried).0 ≡ ok (revision_record revision)
unfolding machine
retry_ok = refl

failed_retryable_feedback : failed_feedback.state ≡ OperationState.failed_retryable
unfolding machine
failed_retryable_feedback = refl

complete_retry-replay_example :
    claim_feedback_operation 1 "k" "p" [] "f"
      (utc 950)
      (complete_revision 1 2 revision response retried).1
    ≡ (
      ok (succeeded_operation response (utc 900) failed_feedback),
      (complete_revision 1 2 revision response retried).1,
    )
complete_retry-replay_example =
    complete_retry-replay 1 2 revision response retried retry_ok "k" "p" [] "f" (utc 950)
      retried_chosen refl retried_feedback refl refl failed_retryable_feedback refl

retried_retry :
    find_operation (has_key 1 retry "r") retried.operations
    ≡ some (retry_row 1 "r" "q" failed_feedback (utc 820) 2)
unfolding machine
retried_retry = refl

claim_retry_operation-Replays_example :
    Replays "q"
      (retry_row 1 "r" "q" failed_feedback (utc 820) 2)
      retried
      (claim_retry_operation 1 "r" "q" (utc 830) retried)
claim_retry_operation-Replays_example =
    claim_retry_operation-Replays 1 "r" "q" (utc 830) retried retried_retry
