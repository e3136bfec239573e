-- ===== src/Compositions/Replay.antt =====
-- The composition of a run is made once.
use cultureshift.Base.{
  String, Bool, true, false, not, List, Option, none, some, ◌≡◌, refl, arith, ◌!=◌, string_eq,
  nat_eq, if◌then◌else◌,
}
use cultureshift.Base.Result.{Result, ok, err}
use cultureshift.Domain.{Uuid, ProjectRun}
use cultureshift.Contracts.{CompositionGenerated, composition_valid}
use cultureshift.Repository.State.{RepositoryError, Database, RunRow, ContextRow}
use cultureshift.Repository.State
use cultureshift.Repository.Reads.{get_composition, get_composition_unchanged}
use cultureshift.Repository.Artifacts.{save_composition}
use cultureshift.Repository.Calls.{Call, perform_all}
use cultureshift.Repository.Immutable.{Keeps, perform_all-Keeps}
use cultureshift.Revising.Session.{
  Failure, Composed, Studio, Inputs, World, technical, with_database,
}
use cultureshift.Revising.Session
use cultureshift.Revising.Composing.{composition_of}
use cultureshift.Actions.{Action, ◌>>=◌, give, translate}
use cultureshift.Compositions.{
  reading, discard, replay, found_again, stored, persist, check_saved, save_drawing, generate_new,
  read_ready, existing_or_new, generate,
}
use cultureshift.Compositions.Drawing.{
  CompositionServiceError, invalid_run_state, draw, persistence_failed, output_invalid,
}

-- The composition that was returned is the one that is stored.
abbrev IsStored : Uuid → Result CompositionServiceError CompositionGenerated → Database → Type 0
IsStored run_id (err e) db = Unit
IsStored run_id (ok m) db = get_composition run_id db ≡ (ok (some m), db)

abbrev Stores :
    {Store : Type 0} → Uuid → Action CompositionServiceError Store CompositionGenerated → Type 0
Stores {Store} run_id action =
    (w : World Store) → IsStored run_id (action w).0 (action w).1.database

save_composition-stored :
    (run_id : Uuid) (m : CompositionGenerated) (db : Database) (m' : CompositionGenerated)
    → (save_composition run_id m db).0 ≡ ok m'
    → get_composition run_id (save_composition run_id m db).1
      ≡ (ok (some m'), (save_composition run_id m db).1)
unfolding save_composition get_composition
save_composition-stored run_id m db m' h = ground arith

found_again-IsStored :
    (run_id : Uuid) (db : Database) → IsStored run_id (found_again (get_composition run_id db).0) db
unfolding get_composition
found_again-IsStored run_id db = ground arith

get_composition-some :
    (run_id : Uuid) (db : Database) (m : CompositionGenerated)
    → (get_composition run_id db).0 ≡ ok (some m)
    → get_composition run_id db ≡ (ok (some m), db)
unfolding get_composition
get_composition-some run_id db m h = ground arith

IsStored-ok :
    (run_id : Uuid) (m : CompositionGenerated)
    (r : Result CompositionServiceError CompositionGenerated) (db : Database)
    → r ≡ ok m
    → IsStored run_id r db
    → get_composition run_id db ≡ (ok (some m), db)
IsStored-ok run_id m (ok m') db h i = ground arith
IsStored-ok run_id m (err e) db h i = cc

module _ {Store : Type 0} (run_id : Uuid) where
  Stores->>= :
      {A : Type 0} (action : Action CompositionServiceError Store A)
      (next : A → Action CompositionServiceError Store CompositionGenerated)
      → ((a : A) → Stores run_id (next a))
      → Stores run_id (action >>= next)
  Stores->>= {A} action next k w = after (action w).0
    where
      w' : World Store
      w' = (action w).1

      after :
          (r : Result CompositionServiceError A)
          → let given =
              elim r as (λ _. Result CompositionServiceError CompositionGenerated × World Store) [
                | ok a ↦ next a w'
                | err e ↦ (err e, w')
              ] in
            IsStored run_id given.0 given.1.database
      after (ok a) = k a w'
      after (err e) = tt

  Stores-if :
      (c : Bool) (action other : Action CompositionServiceError Store CompositionGenerated)
      → Stores run_id action
      → Stores run_id other
      → Stores run_id (if c then action else other)
  Stores-if true action other h k = h
  Stores-if false action other h k = k

module _ {Store : Type 0} (studio : Studio Store) (run_id : Uuid) where
  discard-Stores :
      (artifact : Uuid) (e : CompositionServiceError) → Stores run_id (discard studio artifact e)
  discard-Stores artifact e w = ground arith

  replay-Stores : (artifact : Uuid) → Stores run_id (replay studio run_id artifact)
  replay-Stores artifact w = ground (arith, found_again-IsStored run_id w.database)

  stored-Stores :
      (artifact : Uuid) (e : RepositoryError)
      → Stores run_id (stored studio run_id artifact (err e))
  stored-Stores artifact State.composition_immutable = replay-Stores artifact
  stored-Stores artifact State.invalid_run_state = discard-Stores artifact invalid_run_state
  stored-Stores artifact _ = discard-Stores artifact persistence_failed

  persist-Stores :
      (artifact : Uuid) (m : CompositionGenerated)
      → Stores run_id (persist studio run_id artifact m)
  unfolding persist
  persist-Stores artifact m w =
      after (save_composition run_id m w.database).0 (save_composition-stored run_id m w.database)
    where
      w' : World Store
      w' = with_database (save_composition run_id m w.database).1 w

      after :
          (r : Result RepositoryError CompositionGenerated)
          → ((m' : CompositionGenerated)
              → r ≡ ok m'
              → get_composition run_id w'.database ≡ (ok (some m'), w'.database))
          → IsStored run_id
              (stored studio run_id artifact r w').0
              (stored studio run_id artifact r w').1.database
      after (ok m') h = h m' refl
      after (err e) h = stored-Stores artifact e w'

  check_saved-Stores :
      (inputs : Inputs) (run : ProjectRun) (composed : Composed) (r : Result Failure String)
      → Stores run_id (check_saved studio run_id inputs run composed r)
  check_saved-Stores inputs run composed (err technical) =
      discard-Stores inputs.artifact_id persistence_failed
  check_saved-Stores inputs run composed (err Session.unexpected) = λ w. tt
  check_saved-Stores inputs run composed (err (Session.repository e)) = λ w. tt
  check_saved-Stores inputs run composed (ok sha) =
      let summary = composition_of inputs run composed in
      Stores-if run_id (sha != composed.sha256)
        (discard studio inputs.artifact_id persistence_failed) _
        (discard-Stores inputs.artifact_id persistence_failed)
        (Stores-if run_id (not (composition_valid summary)) (give (err output_invalid))
          (persist studio run_id inputs.artifact_id summary) (λ w. tt)
          (persist-Stores inputs.artifact_id summary))

  generate_new-Stores : (inputs : Inputs) → Stores run_id (generate_new studio run_id inputs)
  unfolding generate_new
  generate_new-Stores inputs =
      Stores->>= run_id (read_ready run_id)
        (λ ready.
          give (draw studio ready.run ready.lock ready.draft)
          >>= save_drawing studio run_id inputs ready.run)
        (λ ready.
          Stores->>= run_id (give (draw studio ready.run ready.lock ready.draft))
            (save_drawing studio run_id inputs ready.run)
            (λ composed w. check_saved-Stores inputs ready.run composed _ _))

  existing-Stores : (inputs : Inputs) → Stores run_id (generate studio run_id inputs)
  unfolding generate
  existing-Stores inputs w = after (get_composition run_id w.database).0 refl
    where
      w' : World Store
      w' = with_database (get_composition run_id w.database).1 w

      after :
          (r : Result RepositoryError (Option CompositionGenerated))
          → (get_composition run_id w.database).0 ≡ r
          → let given =
              elim (translate reading r)
                as (λ _. Result CompositionServiceError CompositionGenerated × World Store) [
                  | ok a ↦ existing_or_new studio run_id inputs a w'
                  | err e ↦ (err e, w')
                ] in
            IsStored run_id given.0 given.1.database
      after (ok none) h = generate_new-Stores inputs w'
      after (ok (some m)) h =
          rw (get_composition_unchanged run_id w.database)
            (get_composition-some run_id w.database m h)
      after (err State.run_not_found) h = tt
      after (err _) h = tt

  generate-found :
      (inputs : Inputs) (w : World Store) (m : CompositionGenerated)
      → get_composition run_id w.database ≡ (ok (some m), w.database)
      → generate studio run_id inputs w ≡ (ok m, w)
  unfolding generate
  generate-found inputs w m h = ground arith

get_composition-Keeps :
    {db db' : Database} (run_id : Uuid) (m : CompositionGenerated)
    → Keeps db db'
    → get_composition run_id db ≡ (ok (some m), db)
    → get_composition run_id db' ≡ (ok (some m), db')
unfolding get_composition
get_composition-Keeps {db} {db'} run_id m k h = ground (arith, k.composition run_id m)

abbrev pub with_store : {Store : Type 0} → Store → Database → World Store
with_store store db = record { database = db; store = store }

-- When a request for a composition returned one: whatever calls of the repository are made after it and
-- whatever becomes of the images, every later request for the run returns the same one, also from a
-- service that is built with other providers, and leaves the database and the images as they are.
pub generate-replay :
    {Store : Type 0} (studio studio' : Studio Store) (run_id : Uuid) (first second : Inputs)
    (calls : List Call) (w : World Store) (store : Store) (m : CompositionGenerated)
    → (generate studio run_id first w).0 ≡ ok m
    → let db = perform_all calls (generate studio run_id first w).1.database in
      let later = with_store store db in generate studio' run_id second later ≡ (ok m, later)
generate-replay studio studio' run_id first second calls w store m h =
    let db = (generate studio run_id first w).1.database in
    let db' = perform_all calls db in
    generate-found studio' run_id second (with_store store db') m (
      get_composition-Keeps run_id m (perform_all-Keeps calls db) (
        IsStored-ok run_id m (generate studio run_id first w).0 db h
          (existing-Stores studio run_id first w)))
