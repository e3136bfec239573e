-- ===== src/Actions/Effects.antt =====
-- What an action does to the database, as a sequence of calls of the repository's methods.
use cultureshift.Base.{Bool, true, false, Option, none, some, ◌≡◌, ap, if◌then◌else◌}
use cultureshift.Base.Result.{Result, ok, err}
use cultureshift.Repository.State.{Database, RepositoryError}
use cultureshift.Repository.Monad.{Method}
use cultureshift.Repository.Calls.{Call, perform}
use cultureshift.Repository.Exclusive.{IsDisciplined}
use cultureshift.Repository.Lifecycle.{Later, same, further, Later-trans}
use cultureshift.Revising.Session.{World}
use cultureshift.Actions.{Action, ◌>>=◌, ◌>>◌, give, refuse_when, require, query}

pub Later-eq : {a b : Database} → b ≡ a → Later a b
Later-eq {a} e = rw (e) same

-- Calls that the application may make in any database.
abbrev pub IsFree : Call → Type 0
IsFree (Call.create run request) = ⊥
IsFree (Call.update_status id status now) = ⊥
IsFree (Call.complete_analysis id analysis repair now) = ⊥
IsFree (Call.record_failure id status code now) = ⊥
IsFree _ = Unit

pub IsFree-IsDisciplined : (c : Call) (db : Database) → IsFree c → IsDisciplined c db
IsFree-IsDisciplined (Call.create run request) db f = elim f [ ]
IsFree-IsDisciplined (Call.update_status id status now) db f = elim f [ ]
IsFree-IsDisciplined (Call.complete_analysis id analysis repair now) db f = elim f [ ]
IsFree-IsDisciplined (Call.record_failure id status code now) db f = elim f [ ]
IsFree-IsDisciplined _ db f = tt

module _ {E Store : Type 0} where
  -- The database after the action is one that the application's calls reach from the one before.
  abbrev pub Extends : {A : Type 0} → Action E Store A → Type 0
  Extends action = (w : World Store) → Later w.database (action w).1.database

  pub Extends->>= :
      {A B : Type 0} (action : Action E Store A) (next : A → Action E Store B)
      → Extends action
      → ((a : A) → Extends (next a))
      → Extends (action >>= next)
  Extends->>= {A} {B} action next h k w = Later-trans (h w) (after (action w).0 (action w).1)
    where
      after :
          (r : Result E A) (w' : World Store)
          → Later w'.database
              (elim r as (λ _. Result E B × World Store) [
                | ok a ↦ next a w'
                | err e ↦ (err e, w')
              ]).1.database
      after (ok a) w' = k a w'
      after (err e) w' = same

  pub Extends-give : {A : Type 0} (r : Result E A) → Extends (give r)
  Extends-give r w = same

  -- A check that reads and writes nothing, before another action.
  pub Extends-checked :
      (r : Result E (Unit {0})) {A : Type 0} (next : Action E Store A)
      → Extends next
      → Extends (give r >> next)
  Extends-checked (ok _) next h w = h w
  Extends-checked (err e) next h w = same

  pub Extends-refused :
      (c : Bool) (e : E) {A : Type 0} (next : Action E Store A)
      → Extends next
      → Extends (refuse_when c e >> next)
  Extends-refused true e next h w = same
  Extends-refused false e next h w = h w

  pub Extends-refuse_when : (c : Bool) (e : E) → Extends (refuse_when c e)
  Extends-refuse_when c e w = same

  pub Extends-require : {A : Type 0} (o : Option A) (e : E) → Extends (require o e)
  Extends-require none e w = same
  Extends-require (some a) e w = same

  pub Extends-read :
      {A : Type 0} (raised : RepositoryError → E) (method : Method A)
      → ((db : Database) → (method db).1 ≡ db)
      → Extends (query raised method)
  Extends-read raised method h w = Later-eq (h w.database)

  pub Extends-call :
      {A : Type 0} (raised : RepositoryError → E) (method : Method A) (c : Call)
      → IsFree c
      → ((db : Database) → perform c db ≡ (method db).1)
      → Extends (query raised method)
  Extends-call raised method c f h w =
      rw (← h w.database) (further same c (IsFree-IsDisciplined c w.database f))

  pub Extends-if :
      {A : Type 0} (c : Bool) (yes_action no_action : Action E Store A)
      → Extends yes_action
      → Extends no_action
      → Extends (if c then yes_action else no_action)
  Extends-if true yes_action no_action h k = h
  Extends-if false yes_action no_action h k = k

  -- An action that only reads.
  abbrev pub Reads : {A : Type 0} → Action E Store A → Type 0
  Reads action = (w : World Store) → (action w).1 ≡ w

  pub Reads-Extends : {A : Type 0} (action : Action E Store A) → Reads action → Extends action
  Reads-Extends action h w = Later-eq (ap (λ v. v.database) (h w))
