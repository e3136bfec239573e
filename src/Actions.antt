-- ===== src/Actions.antt =====
-- The work of a service or of a handler of the HTTP application on the database and the stored images:
-- it returns, or it raises, and what it wrote before stays.
pub mod Effects
use cultureshift.Base.{Bool, Option, none, some, if◌then◌else◌}
use cultureshift.Base.Result.{Result, ok, err}
use cultureshift.Repository.State.{RepositoryError}
use cultureshift.Repository.Monad.{Method}
use cultureshift.Revising.Session.{World, with_database}

abbrev pub Action : Type 0 → Type 0 → Type 0 → Type 0
Action E Store A = World Store → Result E A × World Store

-- What the caller of a method sees of its result.
abbrev pub translate :
    {E A : Type 0} → (RepositoryError → E) → Result RepositoryError A → Result E A
translate raised (ok a) = ok a
translate raised (err e) = err (raised e)

module _ {E Store : Type 0} where
  infixl 5 ◌>>=◌ ◌>>◌
  abbrev pub ◌>>=◌ : {A B : Type 0} → Action E Store A → (A → Action E Store B) → Action E Store B
  ◌>>=◌ action next w = let (r, w') = action w in elim r [ ok a ↦ next a w' | err e ↦ (err e, w') ]

  abbrev pub ◌>>◌ : {B : Type 0} → Action E Store (Unit {0}) → Action E Store B → Action E Store B
  action >> next = action >>= λ _. next

  abbrev pub give : {A : Type 0} → Result E A → Action E Store A
  give r w = (r, w)

  -- `if c: raise e`
  abbrev pub refuse_when : Bool → E → Action E Store (Unit {0})
  refuse_when c e w = (if c then err e else ok tt, w)

  -- `if value is None: raise e`
  abbrev pub require : {A : Type 0} → Option A → E → Action E Store A
  require none e w = (err e, w)
  require (some a) e w = (ok a, w)

  -- A call of a method of the repository, with what its exceptions become.
  abbrev pub query : {A : Type 0} → (RepositoryError → E) → Method A → Action E Store A
  query raised method w =
      let (r, db) = method w.database in (translate raised r, with_database db w)
