-- ===== src/Tests/Stories/Studio.antt =====
-- Requests to the service that revises a run, and its theorems at them.
use cultureshift.Base.{
  ℕ, Bool, ◌==◌, if◌then◌else◌, true, false, List, [], ◌∷◌, none, some, ◌≡◌, ◌≢◌, refl, arith,
  nat_eq, string_eq, all,
}
use cultureshift.Base.Result.{ok, err}
use cultureshift.Base.Int
use cultureshift.Domain
use cultureshift.Domain.{utc, ready}
use cultureshift.Contracts
use cultureshift.Contracts.{
  RetryRequest, ReasonCategory, is_given, FeedbackRequest, RevisionChange, RevisionCompleted,
  CompositionGenerated, AdCopy,
}
use cultureshift.Workflow
use cultureshift.Repository.State.{OperationState, feedback}
use cultureshift.Repository.Reads
use cultureshift.Repository.Exclusive.{HasStatus}
use cultureshift.Repository.Exclusive.Counts.{is_chosen}
use cultureshift.Repository.Operations.{find_operation, has_key, has_state}
use cultureshift.Critic
use cultureshift.Critic.{report_values}
use cultureshift.Revision
use cultureshift.Revision.{revisions}
use cultureshift.Revising.{retry, submit_feedback, is_idempotency_key}
use cultureshift.Revising.Session.{
  Failure, technical, unexpected, ServiceError, Studio, Inputs, World, Session,
}
use cultureshift.Revising.Composing
use cultureshift.Revising.Execution
use cultureshift.Revising.Execution.{version_two, execute}
use cultureshift.Revising.Answers.{is_answered}
use cultureshift.Revising.Replay.{submit_feedback-replay}
use cultureshift.Revising.Failures.{execute-technical, execute-stuck}
use cultureshift.Revising.Images.{KeepsImages}
use cultureshift.Revising.Undone.{submit_feedback-Undone, retry-Undone}
use cultureshift.Tests.Data.{digest, lock, analysis, draft, brief, ad_copy, layers, composition}
use cultureshift.Tests.Stories

-- Stores the identifiers of the images.
abbrev pub studio : Studio (List ℕ)
studio = record {
  generate_background = λ r. ok (1 ∷ []);
  resolve = λ id. ok (id ∷ []);
  compose = λ r. ok (record { png_bytes = 137 ∷ []; sha256 = digest; layers = layers });
  save = λ id bytes at store. (ok digest, id ∷ store);
  delete = λ id store. (ok true, []);
  digest = λ s. s;
  feedback_fingerprint = λ r. "fingerprint";
  retry_fingerprint = λ r. "fingerprint";
  casefold = λ s. s;
}

-- A studio whose drawing fails.
abbrev failing : Failure → Studio (List ℕ)
failing e = record studio { compose = λ r. err e }

abbrev inputs : Inputs
inputs = record {
  artifact_id = 31;
  claimed_at = 800;
  generated_at = 850;
  reviewed_at = 900;
  failed_at = 950;
}

abbrev later : Inputs
later = record {
  artifact_id = 32;
  claimed_at = 1000;
  generated_at = 1050;
  reviewed_at = 1100;
  failed_at = 1150;
}

abbrev world : World (List ℕ)
world = record { database = Stories.after Stories.reviewed; store = [] }

abbrev wish : FeedbackRequest
wish = record {
  run_id = 1;
  feedback = "The body is long";
  requested_changes = RevisionChange.shorten_body ∷ [];
  submitted_at = 790;
}

abbrev shorter : AdCopy
shorter = record ad_copy { body = (revisions Domain.china_to_uk).body }

abbrev second : CompositionGenerated
second = record (composition 31) { generated_at = 850 }

abbrev version_two_of : RevisionCompleted
version_two_of = record {
  run_id = 1;
  status = ready;
  previous_composition = composition 30;
  brief = brief;
  ad_copy = shorter;
  composition = second;
  critique =
      report_values (λ s. s)
        (record {
          analysis = analysis;
          confirmed_brand_lock = lock;
          draft = record draft { ad_copy = shorter; generated_at = utc 850 };
          composition = second;
          warning_codes = [];
        })
        900;
  technical_attempt_count = 0;
  revised_at = 900;
}

revised : (submit_feedback studio wish "key_0123456789abc" inputs world).0 ≡ ok version_two_of
unfolding Stories.machine submit_feedback is_idempotency_key execute version_two Execution.prepare
    Composing.read_version_one Reads.get_analysis Reads.get_confirmed_brand_lock Reads.get_draft
    Reads.get_composition Reads.get_critique Contracts.execution_mode_eq Execution.revise_version
    Revision.revise Composing.compose_again Contracts.background_request_valid Contracts.locale_eq
    Contracts.guardrails_eq Contracts.revision_change_eq Contracts.composition_valid
    Contracts.composition_layer_valid Contracts.sha256_valid Execution.assess Critic.review
    report_values Critic.found_issues Critic.hypothesis_issues Critic.is_unsafe
    Critic.brand_lock_preserved Critic.facts_unsupported Critic.copy_unreadable Critic.occurs_in
    Contracts.review_status_eq Contracts.critique_severity_eq Contracts.critique_category_eq
    Contracts.critique_report_valid Contracts.revision_completed_valid Contracts.revision_identity
    Contracts.creative_brief_valid Contracts.ad_copy_valid Int.int_eq Contracts.layer_kinds_eq
    revisions Contracts.critique_issue_valid Contracts.consistent_status
revised = refl

reviewed_answered : all is_answered world.database.operations ≡ true
unfolding Stories.machine
reviewed_answered = refl

submit_feedback-replay_example :
    submit_feedback studio wish "key_0123456789abc" later
      (submit_feedback studio wish "key_0123456789abc" inputs world).1
    ≡ (ok version_two_of, (submit_feedback studio wish "key_0123456789abc" inputs world).1)
submit_feedback-replay_example =
    submit_feedback-replay studio inputs wish "key_0123456789abc" world reviewed_answered revised
      later

-- The world with the claimed operation of the stories.
abbrev claimed_world : World (List ℕ)
claimed_world = record { database = Stories.claimed; store = [] }

abbrev claimed_session : Session (List ℕ)
claimed_session = record { world = claimed_world; artifact_saved = false }

drawing_fails :
    (e : Failure)
    → (version_two (failing e) Stories.feedback_operation inputs claimed_session).0 ≡ err e
unfolding Stories.machine version_two Execution.prepare Composing.read_version_one
    Reads.get_analysis Reads.get_confirmed_brand_lock Reads.get_draft Reads.get_composition
    Reads.get_critique Contracts.execution_mode_eq Execution.revise_version Revision.revise
    Composing.compose_again Contracts.background_request_valid Contracts.locale_eq
    Contracts.guardrails_eq
drawing_fails e = refl

failure_reported :
    (execute (failing technical) Stories.feedback_operation false inputs claimed_world).0
    ≡ err ServiceError.revision_failed
unfolding Stories.machine execute Execution.recover version_two Execution.prepare
    Composing.read_version_one Reads.get_analysis Reads.get_confirmed_brand_lock Reads.get_draft
    Reads.get_composition Reads.get_critique Contracts.execution_mode_eq Execution.revise_version
    Revision.revise Composing.compose_again Contracts.background_request_valid Contracts.locale_eq
    Contracts.guardrails_eq
failure_reported = refl

failure_caught :
    (execute (failing technical) Stories.feedback_operation false inputs claimed_world).0
    ≢ err ServiceError.uncaught
failure_caught = λ e. ground (arith, e, failure_reported)

claimed_chosen : is_given (find_operation (is_chosen 1 1) Stories.claimed.operations) ≡ true
unfolding Stories.machine
claimed_chosen = refl

claimed_active :
    is_given
      (find_operation (has_state 1 feedback OperationState.in_progress) Stories.claimed.operations)
    ≡ true
unfolding Stories.machine
claimed_active = refl

claimed_row :
    Stories.claimed.runs 1
    ≡ some (record {
      direction = Domain.china_to_uk;
      status = Domain.in_progress;
      warning_codes = [];
      created_at = utc 100;
      updated_at = utc 800;
    })
unfolding Stories.machine
claimed_row = refl

claimed_unrevised : Stories.claimed.revisions 1 ≡ none
unfolding Stories.machine
claimed_unrevised = refl

other_key_unused :
    find_operation (has_key 1 feedback "another_key_0123") Stories.claimed.operations ≡ none
unfolding Stories.machine
other_key_unused = refl

other_key_valid : is_idempotency_key "another_key_0123" ≡ true
unfolding is_idempotency_key nat_eq
other_key_valid = refl

execute-technical_example :
    ((execute (failing technical) Stories.feedback_operation false inputs claimed_world).0
      ≡ err ServiceError.revision_failed)
    × HasStatus
        ((execute
            (failing technical)
            Stories.feedback_operation
            false
            inputs
            claimed_world).1.database.runs
          1)
        Domain.failed_retryable
execute-technical_example =
    execute-technical (failing technical) inputs Stories.feedback_operation false claimed_world
      (drawing_fails technical) failure_caught claimed_chosen claimed_row

execute-stuck_example :
    submit_feedback
      (failing unexpected)
      wish
      "another_key_0123"
      later
      (execute (failing unexpected) Stories.feedback_operation false inputs claimed_world).1
    ≡ (
      err ServiceError.operation_in_progress,
      (execute (failing unexpected) Stories.feedback_operation false inputs claimed_world).1,
    )
execute-stuck_example =
    execute-stuck (failing unexpected) inputs Stories.feedback_operation claimed_world wish
      "another_key_0123" later (drawing_fails unexpected) refl claimed_active claimed_unrevised refl
      other_key_valid other_key_unused

abbrev again : RetryRequest
again = record { run_id = 1; reason_category = ReasonCategory.generation }

-- A store that tells which images are there, and answers a save with another digest than the
-- composition's.
abbrev is_stored : ℕ → (ℕ → Bool) → Bool
is_stored id store = store id

abbrev put : Bool → ℕ → (ℕ → Bool) → ℕ → Bool
put there id store j = if j == id then there else store j

abbrev mismatched : Studio (ℕ → Bool)
mismatched = record {
  generate_background = λ r. ok (1 ∷ []);
  resolve = λ id. ok (id ∷ []);
  compose = λ r. ok (record { png_bytes = 137 ∷ []; sha256 = digest; layers = layers });
  save = λ id bytes at store. (ok "another digest", put true id store);
  delete = λ id store. (ok true, put false id store);
  digest = λ s. s;
  feedback_fingerprint = λ r. "fingerprint";
  retry_fingerprint = λ r. "fingerprint";
  casefold = λ s. s;
}

mismatched-KeepsImages : KeepsImages mismatched is_stored
mismatched-KeepsImages = record {
  failed_save = λ id bytes at o e f. cc;
  other_save = λ id j bytes at o other. ground (arith, other);
  deletion = λ id o b d. ground arith;
  other_deletion = λ id j o other. ground (arith, other);
}

-- The reviewed run, and the image of its first version.
abbrev first_world : World (ℕ → Bool)
first_world = record { database = Stories.after Stories.reviewed; store = λ j. j == 30 }

unused_31 : (◌==◌ {A = ℕ} 31 30) ≡ false
unfolding nat_eq
unused_31 = refl

unused_32 : (◌==◌ {A = ℕ} 32 30) ≡ false
unfolding nat_eq
unused_32 = refl

mismatch_answered :
    (submit_feedback mismatched wish "key_0123456789abc" inputs first_world).0
    ≡ err ServiceError.revision_failed
unfolding Stories.machine submit_feedback is_idempotency_key execute Execution.recover version_two
    Execution.prepare Composing.read_version_one Reads.get_analysis Reads.get_confirmed_brand_lock
    Reads.get_draft Reads.get_composition Reads.get_critique Contracts.execution_mode_eq
    Execution.revise_version Revision.revise Composing.compose_again
    Contracts.background_request_valid Contracts.locale_eq Contracts.guardrails_eq
    Contracts.revision_change_eq
mismatch_answered = refl

revision_failed_caught : ServiceError.revision_failed ≢ ServiceError.uncaught
revision_failed_caught = λ e. cc

submit_feedback-Undone_example :
    let after = (submit_feedback mismatched wish "key_0123456789abc" inputs first_world).1 in
    (after.store 31 ≡ first_world.store 31)
    × (after.database.revisions ≡ first_world.database.revisions)
    × (ServiceError.revision_failed ≢ ServiceError.retry_failed)
submit_feedback-Undone_example =
    submit_feedback-Undone mismatched is_stored mismatched-KeepsImages inputs 31 wish
      "key_0123456789abc" first_world {e = ServiceError.revision_failed} unused_31 mismatch_answered
      revision_failed_caught

-- The world after the first attempt failed.
abbrev retryable_world : World (ℕ → Bool)
retryable_world = record {
  database =
      (execute (failing technical) Stories.feedback_operation false inputs
        claimed_world).1.database;
  store = λ j. j == 30;
}

mismatch_retried :
    (retry mismatched again "key_retry_0123456" later retryable_world).0
    ≡ err ServiceError.retry_failed
unfolding Stories.machine retry is_idempotency_key execute Execution.recover version_two
    Execution.prepare Composing.read_version_one Reads.get_analysis Reads.get_confirmed_brand_lock
    Reads.get_draft Reads.get_composition Reads.get_critique Contracts.execution_mode_eq
    Execution.revise_version Revision.revise Composing.compose_again
    Contracts.background_request_valid Contracts.locale_eq Contracts.guardrails_eq
    Contracts.revision_change_eq Workflow.decide_retry
mismatch_retried = refl

retry_failed_caught : ServiceError.retry_failed ≢ ServiceError.uncaught
retry_failed_caught = λ e. cc

retry-Undone_example :
    let after = (retry mismatched again "key_retry_0123456" later retryable_world).1 in
    (after.store 32 ≡ retryable_world.store 32)
    × (after.database.revisions ≡ retryable_world.database.revisions)
    × (ServiceError.retry_failed ≢ ServiceError.revision_failed)
retry-Undone_example =
    retry-Undone mismatched is_stored mismatched-KeepsImages later 32 again "key_retry_0123456"
      retryable_world {e = ServiceError.retry_failed} unused_32 mismatch_retried retry_failed_caught
