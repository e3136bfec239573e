-- ===== src/Revising/Steps.antt =====
-- What the steps of an execution do to the database: all but the last leave it as it is.
use cultureshift.Base.{◌==◌, Bool, ◌∙◌, true, ◌≡◌, refl, arith, nat_eq, string_eq}
use cultureshift.Base.Result.{Result, ok, err}
use cultureshift.Domain.{Uuid, ProjectRun, model_validate}
use cultureshift.Contracts.{CompositionGenerated}
use cultureshift.Repository.State.{RepositoryError, Database, OperationRecord}
use cultureshift.Repository.Reads.{
  get, get_unchanged, get_request_unchanged, get_analysis_unchanged,
  get_confirmed_brand_lock_unchanged, get_draft_unchanged, get_composition_unchanged,
  get_critique_unchanged,
}
use cultureshift.Revision.{RevisionArtifacts, revise}
use cultureshift.Revising.Session.{Step, ◌>>=◌, give, Failure, Studio, Inputs, Session}
use cultureshift.Revising.Composing.{VersionOne, read_version_one, compose_again, from_revision}
use cultureshift.Revising.Execution.{Prepared, prepare, assess, revise_version}

-- A run that is read has the id that was asked for.
abbrev has_id : Uuid → Result RepositoryError ProjectRun → Bool
has_id id (ok r) = r.id == id
has_id id (err e) = true

abbrev has_version_id : Uuid → Result Failure VersionOne → Bool
has_version_id id (ok v) = v.run.id == id
has_version_id id (err e) = true

get-id : (id : Uuid) (db : Database) → has_id id (get id db).0 ≡ true
unfolding get model_validate
get-id id db = ground arith

-- The values are for a run, if there are any.
abbrev pub is_for : Uuid → Result Failure Prepared → Bool
is_for id (ok p) = p.run_id == id
is_for id (err e) = true

module _ {Store : Type 0} where
  pub read_version_one-session : (id : Uuid) (s : Session Store) → (read_version_one id s).1 ≡ s
  unfolding read_version_one
  read_version_one-session id s = ground (
    arith,
    get_unchanged id s.world.database,
    get_request_unchanged id s.world.database,
    get_analysis_unchanged id s.world.database,
    get_confirmed_brand_lock_unchanged id s.world.database,
    get_draft_unchanged id s.world.database,
    get_composition_unchanged id s.world.database,
    get_critique_unchanged id s.world.database,
  )

  read_version_one-id :
      (id : Uuid) (s : Session Store) → has_version_id id (read_version_one id s).0 ≡ true
  unfolding read_version_one
  read_version_one-id id s = ground (arith, get-id id s.world.database)

  -- A step leaves the database as it is.
  abbrev pub Leaves : {A : Type 0} → Step Store A → Type 0
  Leaves step = (s : Session Store) → (step s).1.world.database ≡ s.world.database

  Leaves->>= :
      {A B : Type 0} (step : Step Store A) (next : A → Step Store B)
      → Leaves step
      → ((a : A) → Leaves (next a))
      → Leaves (step >>= next)
  Leaves->>= {A} {B} step next h k s = after (step s).0 (step s).1 ∙ h s
    where
      after :
          (r : Result Failure A) (s' : Session Store)
          → (elim r as (λ _. Result Failure B × Session Store) [
            | ok a ↦ next a s'
            | err e ↦ (err e, s')
          ]).1.world.database
            ≡ s'.world.database
      after (ok a) s' = k a s'
      after (err e) s' = refl

module _ {Store : Type 0} (studio : Studio Store) (inputs : Inputs) where
  compose_again-Leaves :
      (v : VersionOne) (revised : RevisionArtifacts)
      → Leaves (compose_again studio inputs v revised)
  unfolding compose_again
  compose_again-Leaves v revised s = ground arith

  assess-Leaves :
      (operation : OperationRecord) (v : VersionOne) (revised : RevisionArtifacts)
      (m : CompositionGenerated)
      → Leaves (assess studio operation inputs v revised m)
  unfolding assess
  assess-Leaves operation v revised m s = ground (arith, get_unchanged v.run.id s.world.database)

  revise_version-Leaves :
      (operation : OperationRecord) (v : VersionOne)
      → Leaves (revise_version studio operation inputs v)
  unfolding revise_version
  revise_version-Leaves operation v =
      Leaves->>= (give (from_revision (revise v.run.direction v.draft operation.requested_changes)))
        (λ revised.
          compose_again studio inputs v revised >>= assess studio operation inputs v revised)
        (λ s. refl)
        (λ revised.
          Leaves->>= (compose_again studio inputs v revised)
            (assess studio operation inputs v revised) (compose_again-Leaves v revised)
            (assess-Leaves operation v revised))

  -- Nothing is written to the database before the values to be stored are complete.
  pub prepare-Leaves : (operation : OperationRecord) → Leaves (prepare studio operation inputs)
  unfolding prepare
  prepare-Leaves operation =
      Leaves->>= (read_version_one operation.run_id) (revise_version studio operation inputs)
        (λ s. ground (arith, read_version_one-session operation.run_id s))
        (revise_version-Leaves operation)

  revise_version-run_id :
      (operation : OperationRecord) (v : VersionOne) (s : Session Store)
      → is_for v.run.id (revise_version studio operation inputs v s).0 ≡ true
  unfolding revise_version assess
  revise_version-run_id operation v s = ground arith

  -- What is to be stored is for the operation's run.
  pub prepare-run_id :
      (operation : OperationRecord) (s : Session Store)
      → is_for operation.run_id (prepare studio operation inputs s).0 ≡ true
  unfolding prepare
  prepare-run_id operation s =
      after (read_version_one operation.run_id s).0 (read_version_one-id operation.run_id s)
    where
      after :
          (r : Result Failure VersionOne)
          → has_version_id operation.run_id r ≡ true
          → is_for operation.run_id
              (elim r as (λ _. Result Failure Prepared × Session Store) [
                | ok v ↦
                    revise_version studio operation inputs v (read_version_one operation.run_id s).1
                | err e ↦ (err e, (read_version_one operation.run_id s).1)
              ]).0
            ≡ true
      after (ok v) h =
          ground (arith, revise_version-run_id operation v (read_version_one operation.run_id s).1)
      after (err e) h = refl
