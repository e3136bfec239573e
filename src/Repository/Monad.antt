-- ===== src/Repository/Monad.antt =====
-- A method of the repository: it reads and writes the database, and returns or raises.
use cultureshift.Base.{Bool, Option, none, some, if◌then◌else◌}
use cultureshift.Base.Result.{Result, ok, err}
use cultureshift.Repository.State.{Database, RepositoryError}

abbrev pub Method : Type 0 → Type 0
Method A = Database → Result RepositoryError A × Database

abbrev pub pure : {A : Type 0} → A → Method A
pure a db = (ok a, db)

abbrev pub raise : {A : Type 0} → RepositoryError → Method A
raise e db = (err e, db)

infixl 5 ◌>>=◌ ◌>>◌
abbrev pub ◌>>=◌ : {A B : Type 0} → Method A → (A → Method B) → Method B
◌>>=◌ m f db = let (r, db') = m db in elim r [ ok a ↦ f a db' | err e ↦ (err e, db') ]

abbrev pub ◌>>◌ : {B : Type 0} → Method (Unit {0}) → Method B → Method B
m >> k = m >>= λ _. k

abbrev pub gets : {A : Type 0} → (Database → A) → Method A
gets f db = (ok (f db), db)

abbrev pub modify : (Database → Database) → Method (Unit {0})
modify f db = (ok tt, f db)

-- `if c: raise e`
abbrev pub raise_when : Bool → RepositoryError → Method (Unit {0})
raise_when c e db = (if c then err e else ok tt, db)

-- A row that must be there.
abbrev pub or_raise : {A : Type 0} → Option A → RepositoryError → Method A
or_raise none e db = (err e, db)
or_raise (some a) e db = (ok a, db)

-- What a helper without a database returns or raises.
abbrev pub lift : {A : Type 0} → Result RepositoryError A → Method A
lift r db = (r, db)

-- `with self._connect()`: commit on a return, rollback on an exception.
abbrev pub transaction : {A : Type 0} → Method A → Method A
transaction m db = let (r, db') = m db in elim r [ ok a ↦ (ok a, db') | err e ↦ (err e, db) ]
