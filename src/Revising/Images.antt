-- ===== src/Revising/Images.antt =====
-- The images of an execution that fails: what it stores is known to it, and its recovery deletes it.
use cultureshift.Base.{
  if◌then◌else◌, ℕ, List, String, Bool, true, false, ◌≡◌, ◌≢◌, refl, ◌⊎◌, inr, arith, ◌==◌, nat_eq,
  string_eq, ◌+◌,
}
use cultureshift.Base.Result.{Result, ok, err}
use cultureshift.Domain.{Uuid, utc}
use cultureshift.Contracts.{UtcDatetime, CompositionGenerated}
use cultureshift.Workflow.{RetryAction, RetryCondition}
use cultureshift.Repository.State.{Database, OperationRecord}
use cultureshift.Repository.Operations.{fail_revision_operation}
use cultureshift.Revision.{RevisionArtifacts, revise}
use cultureshift.Revising.Session.{
  Failure, ServiceError, Composed, Studio, Inputs, Session, Step, ◌>>=◌, give,
}
use cultureshift.Revising.Composing.{
  VersionOne, save_artifact, read_version_one, compose_again, from_revision,
}
use cultureshift.Revising.Execution.{
  prepare, assess, revise_version, complete_prepared, version_two, failed_action, recover,
}
use cultureshift.Revising.Steps.{read_version_one-session}

-- What is relied on of the store of images, where `has` tells whether an image is there: a save that
-- raises leaves no image, a deletion that returns removes it, and both leave other images.
pub record KeepsImages {Store : Type 0} (studio : Studio Store) (has : Uuid → Store → Bool)
    : Type 0 where
  pub failed_save :
      (id : Uuid) (png_bytes : List ℕ) (at : UtcDatetime) (o : Store) (e : Failure)
      → (studio.save id png_bytes at o).0 ≡ err e
      → has id (studio.save id png_bytes at o).1 ≡ has id o
  pub other_save :
      (id j : Uuid) (png_bytes : List ℕ) (at : UtcDatetime) (o : Store)
      → (j == id) ≡ false
      → has j (studio.save id png_bytes at o).1 ≡ has j o
  pub deletion :
      (id : Uuid) (o : Store) (b : Bool)
      → (studio.delete id o).0 ≡ ok b
      → has id (studio.delete id o).1 ≡ false
  pub other_deletion :
      (id j : Uuid) (o : Store) → (j == id) ≡ false → has j (studio.delete id o).1 ≡ has j o

fail_revision_operation-revisions :
    (id : Uuid) (operation_id : ℕ) (condition : RetryCondition) (action : RetryAction)
    (at : UtcDatetime) (db : Database)
    → (fail_revision_operation id operation_id condition action (utc at) db).1.revisions
      ≡ db.revisions
unfolding fail_revision_operation
fail_revision_operation-revisions id operation_id condition action at db = ground arith

-- The answer to a failure of the attempt that was not made.
abbrev pub other_attempt : Bool → ServiceError
other_attempt retrying =
    if retrying then ServiceError.revision_failed else ServiceError.retry_failed

module _ {Store : Type 0} (studio : Studio Store) (has : Uuid → Store → Bool)
    (law : KeepsImages studio has) (inputs : Inputs) (image : Uuid) (before_store : Store) where
  -- The image is there if it was, or it is the new one and the service knows that it saved it.
  abbrev pub Tidy : Session Store → Type 0
  Tidy s =
      (has image s.world.store ≡ has image before_store)
      ⊎ ((s.artifact_saved ≡ true) × ((image == inputs.artifact_id) ≡ true))

  abbrev KeepsTidy : {A : Type 0} → Step Store A → Type 0
  KeepsTidy step = (s : Session Store) → Tidy s → Tidy (step s).1

  KeepsTidy->>= :
      {A B : Type 0} (step : Step Store A) (next : A → Step Store B)
      → KeepsTidy step
      → ((a : A) → KeepsTidy (next a))
      → KeepsTidy (step >>= next)
  KeepsTidy->>= {A} {B} step next h k s t = after (step s).0 (step s).1 (h s t)
    where
      after :
          (r : Result Failure A) (s' : Session Store)
          → Tidy s'
          → Tidy
              (elim r as (λ _. Result Failure B × Session Store) [
                | ok a ↦ next a s'
                | err e ↦ (err e, s')
              ]).1
      after (ok a) s' t = k a s' t
      after (err e) s' t = t

  save_artifact-KeepsTidy : (composed : Composed) → KeepsTidy (save_artifact studio inputs composed)
  save_artifact-KeepsTidy composed s t =
      after (image == inputs.artifact_id) refl (studio.save id bytes at s.world.store).0 refl
    where
      id : Uuid
      id = inputs.artifact_id

      bytes : List ℕ
      bytes = composed.png_bytes

      at : UtcDatetime
      at = inputs.generated_at + 86400000000

      after :
          (b : Bool)
          → (image == inputs.artifact_id) ≡ b
          → (r : Result Failure String) → (studio.save id bytes at s.world.store).0 ≡ r
          → Tidy
              (elim r as (λ _. Result Failure String × Session Store) [
                | err e ↦ (
                  err e,
                  record s {
                    world = record s.world { store = (studio.save id bytes at s.world.store).1 };
                  },
                )
                | ok sha ↦ (
                  ok sha,
                  record {
                    world = record s.world { store = (studio.save id bytes at s.world.store).1 };
                    artifact_saved = true;
                  },
                )
              ]).1
      after true same (err e) failed =
          ground (arith, t, same, failed, law.failed_save id bytes at s.world.store e failed)
      after true same (ok sha) saved = inr (refl, same)
      after false other (err e) failed =
          ground (arith, t, other, law.other_save id image bytes at s.world.store other)
      after false other (ok sha) saved =
          ground (arith, t, other, law.other_save id image bytes at s.world.store other)

  compose_again-KeepsTidy :
      (v : VersionOne) (revised : RevisionArtifacts)
      → KeepsTidy (compose_again studio inputs v revised)
  unfolding compose_again
  compose_again-KeepsTidy v revised s t = grind (arith, save_artifact-KeepsTidy)

  assess-KeepsTidy :
      (operation : OperationRecord) (v : VersionOne) (revised : RevisionArtifacts)
      (m : CompositionGenerated)
      → KeepsTidy (assess studio operation inputs v revised m)
  unfolding assess
  assess-KeepsTidy operation v revised m s t = ground (arith, t)

  revise_version-KeepsTidy :
      (operation : OperationRecord) (v : VersionOne)
      → KeepsTidy (revise_version studio operation inputs v)
  unfolding revise_version
  revise_version-KeepsTidy operation v =
      KeepsTidy->>=
        (give (from_revision (revise v.run.direction v.draft operation.requested_changes)))
        (λ revised.
          compose_again studio inputs v revised >>= assess studio operation inputs v revised)
        (λ s t. t)
        (λ revised.
          KeepsTidy->>= (compose_again studio inputs v revised)
            (assess studio operation inputs v revised) (compose_again-KeepsTidy v revised)
            (assess-KeepsTidy operation v revised))

  prepare-KeepsTidy : (operation : OperationRecord) → KeepsTidy (prepare studio operation inputs)
  unfolding prepare
  prepare-KeepsTidy operation =
      KeepsTidy->>= (read_version_one operation.run_id) (revise_version studio operation inputs)
        (λ s t. ground (arith, t, read_version_one-session operation.run_id s))
        (revise_version-KeepsTidy operation)

  pub version_two-KeepsTidy :
      (operation : OperationRecord) → KeepsTidy (version_two studio operation inputs)
  unfolding version_two
  version_two-KeepsTidy operation =
      KeepsTidy->>= (prepare studio operation inputs) (complete_prepared operation)
        (prepare-KeepsTidy operation) (λ p s t. ground (arith, t))

  -- The recovery deletes the image that was saved.
  pub recover-image :
      (operation : OperationRecord) (retrying : Bool) (e : Failure) (s : Session Store)
      → has inputs.artifact_id before_store ≡ false
      → Tidy s
      → (recover studio operation retrying inputs e s).0 ≢ err ServiceError.uncaught
      → has image (recover studio operation retrying inputs e s).1.store ≡ has image before_store
  unfolding recover
  recover-image operation retrying e s new t caught =
      after s.artifact_saved refl (image == inputs.artifact_id) refl
        (studio.delete inputs.artifact_id s.world.store).0 refl
    where
      after :
          (saved : Bool)
          → s.artifact_saved ≡ saved
          → (same : Bool) → (image == inputs.artifact_id) ≡ same
          → (deleted : Result Failure Bool)
          → (studio.delete inputs.artifact_id s.world.store).0 ≡ deleted
          → has image (recover studio operation retrying inputs e s).1.store
            ≡ has image before_store
      after false unsaved same i deleted d = ground (arith, t, unsaved)
      after true saved same i (err x) d = ground (arith, saved, d, caught)
      after true saved true i (ok x) d =
          ground (arith, t, saved, i, new, d, law.deletion inputs.artifact_id s.world.store x d)
      after true saved false i (ok x) d =
          ground
            (arith, t, saved, i, d, law.other_deletion inputs.artifact_id image s.world.store i)

  pub recover-revisions :
      (operation : OperationRecord) (retrying : Bool) (e : Failure) (s : Session Store)
      → (recover studio operation retrying inputs e s).1.database.revisions
        ≡ s.world.database.revisions
  unfolding recover
  recover-revisions operation retrying e s = ground (
    arith,
    fail_revision_operation-revisions operation.run_id operation.id
        RetryCondition.connection_before_acceptance (failed_action retrying) inputs.failed_at
        s.world.database,
  )

  -- The recovery names the attempt that failed, and not the other one.
  pub recover-attempt :
      (operation : OperationRecord) (retrying : Bool) (e : Failure) (s : Session Store)
      → (recover studio operation retrying inputs e s).0 ≢ err (other_attempt retrying)
  unfolding recover
  recover-attempt operation true e s = λ c. ground (arith, c)
  recover-attempt operation false e s = λ c. ground (arith, c)
