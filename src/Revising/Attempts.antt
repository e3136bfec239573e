-- ===== src/Revising/Attempts.antt =====
-- What a failed attempt at a revision undoes.
use cultureshift.Base.{◌∙◌, Bool, false, ◌≡◌, ◌≢◌, refl, ◌⊎◌, inl, inr, arith, nat_eq, string_eq}
use cultureshift.Base.Result.{Result, ok, err}
use cultureshift.Domain.{Uuid}
use cultureshift.Contracts.{RevisionCompleted}
use cultureshift.Repository.State.{Database, OperationRecord}
use cultureshift.Revising.Session.{
  Failure, ServiceError, Studio, Inputs, World, Session, with_database,
}
use cultureshift.Revising.Execution.{version_two, recover, execute}
use cultureshift.Revising.Failures.{version_two_failed}
use cultureshift.Revising.Images.{
  KeepsImages, Tidy, version_two-KeepsTidy, recover-image, recover-revisions, other_attempt,
  recover-attempt,
}

module _ {Store : Type 0} (studio : Studio Store) (has : Uuid → Store → Bool)
    (law : KeepsImages studio has) (inputs : Inputs) (image : Uuid) where
  -- A refused request left the image as it was, and no revision, and was not told that the other
  -- attempt failed; unless an exception escaped.
  abbrev pub Undone :
      Bool → World Store → Result ServiceError RevisionCompleted × World Store → Type 0
  Undone retrying w (ok r, w') = Unit
  Undone retrying w (err e, w') =
      (e ≡ ServiceError.uncaught)
      ⊎ ((has image w'.store ≡ has image w.store)
          × (w'.database.revisions ≡ w.database.revisions)
          × (e ≢ other_attempt retrying))

  pub kept :
      (retrying : Bool) (e : ServiceError) (w : World Store)
      → e ≢ other_attempt retrying
      → Undone retrying w (err e, w)
  kept retrying e w other = inr (refl, refl, other)

  pub execute-Undone :
      (operation : OperationRecord) (retrying : Bool) (w : World Store)
      → has inputs.artifact_id w.store ≡ false
      → Undone retrying w (execute studio operation retrying inputs w)
  unfolding execute
  execute-Undone operation retrying w new =
      after (version_two studio operation inputs s₀).0 refl
        (version_two-KeepsTidy studio has law inputs image w.store operation s₀ (inl refl))
    where
      s₀ : Session Store
      s₀ = record { world = w; artifact_saved = false }

      s' : Session Store
      s' = (version_two studio operation inputs s₀).1

      recovered :
          (e : Failure)
          → (version_two studio operation inputs s₀).0 ≡ err e
          → Tidy studio has law inputs image w.store s'
          → (r : Result ServiceError RevisionCompleted)
          → (recover studio operation retrying inputs e s').0 ≡ r
          → Undone retrying w (r, (recover studio operation retrying inputs e s').1)
      recovered e f t (ok x) i = tt
      recovered e f t (err ServiceError.uncaught) i = inl refl
      recovered e f t (err x) i = inr (
        recover-image studio has law inputs image w.store operation retrying e s' new t
            (λ c. ground (arith, i, c)),
        ground (
          arith,
          recover-revisions studio has law inputs image w.store operation retrying e s',
          version_two_failed studio inputs operation s₀ {e = e} f,
        ),
        λ c.
            recover-attempt studio has law inputs image w.store operation retrying e s'
              (ground (arith, i, c)),
      )

      after :
          (r : Result Failure RevisionCompleted)
          → (version_two studio operation inputs s₀).0 ≡ r
          → Tidy studio has law inputs image w.store s'
          → Undone retrying w
              (elim r as (λ _. Result ServiceError RevisionCompleted × World Store) [
                | ok response ↦ (ok response, s'.world)
                | err e ↦ recover studio operation retrying inputs e s'
              ])
      after (ok response) f t = tt
      after (err e) f t = recovered e f t (recover studio operation retrying inputs e s').0 refl

  pub rebased :
      (retrying : Bool) (db : Database) (w : World Store)
      (r : Result ServiceError RevisionCompleted × World Store)
      → db.revisions ≡ w.database.revisions
      → Undone retrying (with_database db w) r
      → Undone retrying w r
  rebased retrying db w (ok x, w') same u = tt
  rebased retrying db w (err e, w') same (inl escaped) = inl escaped
  rebased retrying db w (err e, w') same (inr (images, revisions, other)) =
      inr (images, revisions ∙ same, other)
