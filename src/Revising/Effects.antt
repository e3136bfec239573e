-- ===== src/Revising/Effects.antt =====
-- What a revision does to the database: the calls that claim, complete and fail its operation, and no
-- others.
use cultureshift.Base.{
  String, Bool, true, false, if◌then◌else◌, Option, none, some, ◌≡◌, ◌⊎◌, inl, inr, arith, nat_eq,
  string_eq,
}
use cultureshift.Base.Result.{Result, ok, err}
use cultureshift.Domain.{Uuid, ProjectRun, utc}
use cultureshift.Contracts.{RetryRequest, FeedbackRequest, RevisionCompleted}
use cultureshift.Workflow.{RetryAction, RetryCondition, decide_retry}
use cultureshift.Repository.State.{Database, OperationRecord, RepositoryError}
use cultureshift.Repository.Reads.{get}
use cultureshift.Repository.Operations.{
  claim_retry_operation, claim_feedback_operation, fail_revision_operation,
}
use cultureshift.Repository.Calls.{Call, perform}
use cultureshift.Revising.{
  before, is_decided, execute_decided, execute_retry, answer_retry, retry, answer_feedback,
  submit_feedback, stored_response, is_idempotency_key,
}
use cultureshift.Revising.Session.{
  Failure, Studio, Inputs, World, Session, with_database, ServiceError,
}
use cultureshift.Revising.Execution.{
  Prepared, prepare, complete_prepared, version_two, execute, recover, failed_action,
}
use cultureshift.Revising.Steps.{prepare-Leaves}

-- The calls of the service.
abbrev pub IsRevision : Call → Type 0
IsRevision (Call.claim_feedback_operation id key fingerprint changes digest at) = Unit
IsRevision (Call.claim_retry_operation id key fingerprint at) = Unit
IsRevision (Call.fail_revision_operation id operation_id condition action at) = Unit
IsRevision (Call.complete_revision id operation_id revision response) = Unit
IsRevision _ = ⊥

-- A relation that holds of the databases before and after any sequence of these calls.
pub record IsClosed (R : Database → Database → Type 0) : Type 0 where
  pub same : (a : Database) → R a a
  pub chain : (a b c : Database) → R a b → R b c → R a c
  pub performed : (c : Call) (a : Database) → IsRevision c → R a (perform c a)

module _ {R : Database → Database → Type 0} (law : IsClosed R) {Store : Type 0}
    (studio : Studio Store) (inputs : Inputs) where
  same-eq : (a b : Database) → b ≡ a → R a b
  same-eq a b e = rw (e) (law.same a)

  version_two-effect :
      (operation : OperationRecord) (s : Session Store)
      → R s.world.database (version_two studio operation inputs s).1.world.database
  unfolding version_two perform
  version_two-effect operation s =
      law.chain s.world.database s'.world.database
        (version_two studio operation inputs s).1.world.database
        (same-eq s.world.database s'.world.database (prepare-Leaves studio inputs operation s))
        (after (prepare studio operation inputs s).0)
    where
      s' : Session Store
      s' = (prepare studio operation inputs s).1

      after :
          (r : Result Failure Prepared)
          → R s'.world.database
              (elim r as (λ _. Result Failure RevisionCompleted × Session Store) [
                | ok p ↦ complete_prepared operation p s'
                | err e ↦ (err e, s')
              ]).1.world.database
      after (ok p) = ground (
        arith,
        law.performed (Call.complete_revision p.run_id operation.id p.revision p.response)
            s'.world.database tt,
      )
      after (err e) = law.same s'.world.database

  recover_database :
      (operation : OperationRecord) (retrying : Bool) (e : Failure) (s : Session Store)
      → ((recover studio operation retrying inputs e s).1.database ≡ s.world.database)
        ⊎ ((recover studio operation retrying inputs e s).1.database
            ≡ (fail_revision_operation operation.run_id operation.id
                RetryCondition.connection_before_acceptance
                (failed_action retrying)
                (utc inputs.failed_at)
                s.world.database).1)
  unfolding recover
  recover_database operation retrying e s = ground arith

  recover-effect :
      (operation : OperationRecord) (retrying : Bool) (e : Failure) (s : Session Store)
      → R s.world.database (recover studio operation retrying inputs e s).1.database
  unfolding perform
  recover-effect operation retrying e s = elim (recover_database operation retrying e s) [
    | inl same ↦
        same-eq s.world.database (recover studio operation retrying inputs e s).1.database same
    | inr failed ↦ rw (failed) (
        law.performed
          (Call.fail_revision_operation operation.run_id operation.id
            RetryCondition.connection_before_acceptance (failed_action retrying)
            (utc inputs.failed_at))
          s.world.database tt)
  ]

  execute-effect :
      (operation : OperationRecord) (retrying : Bool) (w : World Store)
      → R w.database (execute studio operation retrying inputs w).1.database
  unfolding execute
  execute-effect operation retrying w =
      after (version_two studio operation inputs s₀).0 (version_two-effect operation s₀)
    where
      s₀ : Session Store
      s₀ = record { world = w; artifact_saved = false }

      s' : Session Store
      s' = (version_two studio operation inputs s₀).1

      after :
          (r : Result Failure RevisionCompleted)
          → R w.database s'.world.database
          → R w.database
              (elim r as (λ _. Result ServiceError RevisionCompleted × World Store) [
                | ok response ↦ (ok response, s'.world)
                | err e ↦ recover studio operation retrying inputs e s'
              ]).1.database
      after (ok response) h = h
      after (err e) h =
          law.chain w.database s'.world.database
            (recover studio operation retrying inputs e s').1.database h
            (recover-effect operation retrying e s')

  answer_feedback-effect :
      (w : World Store) (c : Result RepositoryError OperationRecord)
      → R w.database (answer_feedback studio inputs w c).1.database
  answer_feedback-effect w (err e) = law.same w.database
  answer_feedback-effect w (ok o) = after (stored_response o)
    where
      after :
          (r : Option RevisionCompleted)
          → R w.database
              (elim r as (λ _. Result ServiceError RevisionCompleted × World Store) [
                | some response ↦ (ok response, w)
                | none ↦ execute studio o false inputs w
              ]).1.database
      after (some response) = law.same w.database
      after none = execute-effect o false w

  pub submit_feedback-effect :
      (request : FeedbackRequest) (key : String) (w : World Store)
      → R w.database (submit_feedback studio request key inputs w).1.database
  unfolding submit_feedback perform
  submit_feedback-effect request key w = after (is_idempotency_key key)
    where
      claimed : Result RepositoryError OperationRecord × Database
      claimed =
          claim_feedback_operation request.run_id (studio.digest key)
            (studio.feedback_fingerprint request) request.requested_changes
            (studio.digest request.feedback) (utc inputs.claimed_at) w.database

      after :
          (b : Bool)
          → R w.database
              (if b
                then answer_feedback studio inputs (with_database claimed.1 w) claimed.0
                else (err ServiceError.invalid_revision_request, w)).1.database
      after false = law.same w.database
      after true =
          law.chain w.database claimed.1
            (answer_feedback studio inputs (with_database claimed.1 w) claimed.0).1.database
            (law.performed
              (Call.claim_feedback_operation request.run_id (studio.digest key)
                (studio.feedback_fingerprint request) request.requested_changes
                (studio.digest request.feedback) (utc inputs.claimed_at))
              w.database tt)
            (answer_feedback-effect (with_database claimed.1 w) claimed.0)

  execute_decided-effect :
      (w : World Store) (o : OperationRecord) (d : Option Bool)
      → R w.database (execute_decided studio inputs w o d).1.database
  execute_decided-effect w o none = law.same w.database
  execute_decided-effect w o (some false) = law.same w.database
  execute_decided-effect w o (some true) = execute-effect o true w

  execute_retry-effect :
      (id : Uuid) (w : World Store) (o : OperationRecord) (condition : Option RetryCondition)
      (action : Option RetryAction)
      → R w.database (execute_retry studio id inputs w o condition action).1.database
  execute_retry-effect id w o none action = law.same w.database
  execute_retry-effect id w o (some c) none = law.same w.database
  execute_retry-effect id w o (some c) (some a) = after (get id w.database).0
    where
      after :
          (r : Result RepositoryError ProjectRun)
          → R w.database
              (elim r as (λ _. Result ServiceError RevisionCompleted × World Store) [
                | err e ↦ (err ServiceError.uncaught, w)
                | ok run ↦
                    execute_decided studio inputs w o
                      (is_decided a (decide_retry c (before run.technical_attempt_count) none))
              ]).1.database
      after (err e) = law.same w.database
      after (ok run) =
          execute_decided-effect w o
            (is_decided a (decide_retry c (before run.technical_attempt_count) none))

  answer_retry-effect :
      (id : Uuid) (w : World Store) (c : Result RepositoryError OperationRecord)
      → R w.database (answer_retry studio id inputs w c).1.database
  answer_retry-effect id w (err e) = law.same w.database
  answer_retry-effect id w (ok o) = after (stored_response o)
    where
      after :
          (r : Option RevisionCompleted)
          → R w.database
              (elim r as (λ _. Result ServiceError RevisionCompleted × World Store) [
                | some response ↦ (ok response, w)
                | none ↦ execute_retry studio id inputs w o o.retry_condition o.retry_action
              ]).1.database
      after (some response) = law.same w.database
      after none = execute_retry-effect id w o o.retry_condition o.retry_action

  pub retry-effect :
      (request : RetryRequest) (key : String) (w : World Store)
      → R w.database (retry studio request key inputs w).1.database
  unfolding retry perform
  retry-effect request key w = after (is_idempotency_key key)
    where
      claimed : Result RepositoryError OperationRecord × Database
      claimed =
          claim_retry_operation request.run_id (studio.digest key)
            (studio.retry_fingerprint request) (utc inputs.claimed_at) w.database

      after :
          (b : Bool)
          → R w.database
              (if b
                then answer_retry studio request.run_id inputs (with_database claimed.1 w) claimed.0
                else (err ServiceError.invalid_revision_request, w)).1.database
      after false = law.same w.database
      after true =
          law.chain w.database claimed.1
            (answer_retry studio request.run_id inputs (with_database claimed.1 w)
              claimed.0).1.database
            (law.performed
              (Call.claim_retry_operation request.run_id (studio.digest key)
                (studio.retry_fingerprint request) (utc inputs.claimed_at))
              w.database tt)
            (answer_retry-effect request.run_id (with_database claimed.1 w) claimed.0)
