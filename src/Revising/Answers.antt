-- ===== src/Revising/Answers.antt =====
-- What a claim finds after an execution that succeeded: the operation with its response.
use cultureshift.Base.{
  [], ◌∷◌, not, ◌||◌, all, ◌+◌, String, Bool, true, List, some, ◌≡◌, ◌⊎◌, refl, arith, nat_eq,
  string_eq, ◌==◌,
}
use cultureshift.Base.Result.{Result, ok, err}
use cultureshift.Domain.{Uuid, Datetime}
use cultureshift.Contracts.{is_given, RevisionCompleted, RevisionChange}
use cultureshift.Repository.State.{
  Database, RepositoryError, OperationRecord, OperationState, RevisionRecord, feedback,
  operation_kind_eq, operation_state_eq,
}
use cultureshift.Repository.Operations.{
  claim_feedback_operation, complete_revision, find_operation, has_key, feedback_row,
}
use cultureshift.Repository.Idempotency.{complete_revision-replay}
use cultureshift.Revising.{stored_response}
use cultureshift.Revising.Session.{
  Failure, repository, Studio, Inputs, Session, seen, with_database,
}
use cultureshift.Revising.Execution.{Prepared, prepare, complete_prepared, version_two}
use cultureshift.Revising.Steps.{prepare-Leaves, prepare-run_id}

-- A claim that was given found an operation that had succeeded, or inserted one.
pub claim_feedback_effect :
    (id : Uuid) (key fingerprint : String) (changes : List RevisionChange) (digest : String)
    (at : Datetime) (db : Database) {o : OperationRecord}
    → (claim_feedback_operation id key fingerprint changes digest at db).0 ≡ ok o
    → let after = (claim_feedback_operation id key fingerprint changes digest at db).1 in
      (find_operation (has_key id feedback key) after.operations ≡ some o)
      × (((after ≡ db) × (o.state ≡ OperationState.succeeded) × (o.fingerprint ≡ fingerprint))
          ⊎ (o ≡ feedback_row id key fingerprint changes digest at (db.last_operation_id + 1)))
unfolding claim_feedback_operation operation_kind_eq
claim_feedback_effect id key fingerprint changes digest at db {o} e = ground arith

-- A claim under the key of an operation that has succeeded gives it.
pub claim_feedback_operation-found :
    (id : Uuid) (key fingerprint : String) (changes : List RevisionChange) (digest : String)
    (at : Datetime) (db : Database) {o : OperationRecord}
    → find_operation (has_key id feedback key) db.operations ≡ some o
    → o.state ≡ OperationState.succeeded
    → o.fingerprint ≡ fingerprint
    → claim_feedback_operation id key fingerprint changes digest at db ≡ (ok o, db)
unfolding claim_feedback_operation operation_state_eq
claim_feedback_operation-found id key fingerprint changes digest at db {o} found st f = ground arith

-- An operation that has succeeded has its response.
abbrev pub is_answered : OperationRecord → Bool
is_answered o = not (o.state == OperationState.succeeded) || is_given o.public_response

pub find_operation-all :
    (p q : OperationRecord → Bool) (os : List OperationRecord) {o : OperationRecord}
    → all p os ≡ true
    → find_operation q os ≡ some o
    → p o ≡ true
find_operation-all p q [] a e = cc
find_operation-all p q (x ∷ os) {o} a e = ground (arith, find_operation-all p q os {o = o})

pub find_operation-key :
    (id : Uuid) (key : String) (os : List OperationRecord) {o : OperationRecord}
    → find_operation (has_key id feedback key) os ≡ some o
    → o.run_id ≡ id
find_operation-key id key [] found = cc
find_operation-key id key (x ∷ os) {o} found = ground (arith, find_operation-key id key os {o = o})

-- A claim finds the response, and writes nothing.
abbrev pub Answers :
    RevisionCompleted → Database → Result RepositoryError OperationRecord × Database → Type 0
Answers response db (ok o, db') = (stored_response o ≡ some response) × (db' ≡ db)
Answers response db (err e, db') = ⊥

module _ {Store : Type 0} where
  completed_ok :
      (p : Prepared) (s : Session Store) (r : Result RepositoryError RevisionRecord)
      {x : RevisionCompleted}
      → (elim (seen repository r) as (λ _. Result Failure RevisionCompleted × Session Store) [
        | ok _ ↦ (ok p.response, s)
        | err e ↦ (err e, s)
      ]).0
        ≡ ok x
      → (v : RevisionRecord) × (r ≡ ok v) × (p.response ≡ x)
  completed_ok p s (ok v) e = (v, refl, ground (arith, e))
  completed_ok p s (err f) e = cc

  complete_prepared-Answers :
      (operation : OperationRecord) (p : Prepared) (s : Session Store)
      {response : RevisionCompleted} (id : Uuid) (key fingerprint : String)
      (changes : List RevisionChange) (digest : String) (at : Datetime)
      → (complete_prepared operation p s).0 ≡ ok response
      → p.run_id ≡ id
      → find_operation (has_key id feedback key) s.world.database.operations ≡ some operation
      → operation.state ≡ OperationState.in_progress
      → operation.fingerprint ≡ fingerprint
      → Answers response (complete_prepared operation p s).1.world.database (
          claim_feedback_operation id key fingerprint changes digest at
            (complete_prepared operation p s).1.world.database)
  unfolding operation_state_eq
  complete_prepared-Answers operation p s {response} id key fingerprint changes digest at e i found
        st f =
      let (v, done, same) =
        completed_ok p
          (record s {
            world =
                with_database
                  (complete_revision p.run_id operation.id p.revision p.response s.world.database).1
                  s.world;
          })
          (complete_revision p.run_id operation.id p.revision p.response s.world.database).0 e in
      ground (
        arith,
        same,
        complete_revision-replay p.run_id operation.id p.revision p.response s.world.database done
            key fingerprint changes digest at {o = operation},
      )

module _ {Store : Type 0} (studio : Studio Store) (inputs : Inputs) where
  prepared_ok :
      (operation : OperationRecord) (s : Session Store) (r : Result Failure Prepared)
      {x : RevisionCompleted}
      → (elim r as (λ _. Result Failure RevisionCompleted × Session Store) [
        | ok p ↦ complete_prepared operation p s
        | err e ↦ (err e, s)
      ]).0
        ≡ ok x
      → (p : Prepared) × (r ≡ ok p)
        × ((complete_prepared operation p s).0 ≡ ok x)
        × ((elim r as (λ _. Result Failure RevisionCompleted × Session Store) [
          | ok p ↦ complete_prepared operation p s
          | err e ↦ (err e, s)
        ])
            ≡ complete_prepared operation p s)
  prepared_ok operation s (ok p) e = (p, refl, e, refl)
  prepared_ok operation s (err f) e = cc

  pub version_two-Answers :
      (operation : OperationRecord) (s : Session Store) {response : RevisionCompleted}
      (key : String) (changes : List RevisionChange) (digest : String) (at : Datetime)
      → (version_two studio operation inputs s).0 ≡ ok response
      → find_operation (has_key operation.run_id feedback key) s.world.database.operations
        ≡ some operation
      → operation.state ≡ OperationState.in_progress
      → Answers response (version_two studio operation inputs s).1.world.database (
          claim_feedback_operation operation.run_id key operation.fingerprint changes digest at
            (version_two studio operation inputs s).1.world.database)
  unfolding version_two
  version_two-Answers operation s {response} key changes digest at e found st =
      let s' = (prepare studio operation inputs s).1 in
      let (p, made, stored, same) =
        prepared_ok operation s' (prepare studio operation inputs s).0 e in
      let same_database = prepare-Leaves studio inputs operation s in
      ground (
        arith,
        made,
        same,
        same_database,
        prepare-run_id studio inputs operation s,
        complete_prepared-Answers operation p s' {response = response} operation.run_id key
            operation.fingerprint changes digest at stored,
      )
