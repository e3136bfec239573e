-- ===== src/Storage.antt =====
-- cultureshift/cloud_storage.py: the protocol of the private object store, and what its users rely on.
-- Keys are the texts that `_key` builds from a prefix, an identifier and a suffix.
pub mod Compositions
pub mod Images
pub mod Assets
pub mod Lifecycle
pub mod Roundtrip
pub mod Memory
pub mod Files
pub mod Local
pub mod Temporary
use cultureshift.Base.{
  ℕ, String, Bool, true, false, ◌&&◌, List, [], ◌∷◌, Option, none, some, ◌==◌, ◌≡◌, ◌≢◌, ◌≤◌, ◌⊎◌,
  length, if◌then◌else◌, Eq, ℕ_discrete,
}
use cultureshift.Base.Result.{Result, ok, err}
use cultureshift.Domain.{Uuid}

-- The suffixes of keys; the two stores have prefixes of their own.
pub data Suffix : Type 0 where
  png jpg meta deleted composition_png composition_json : Suffix

pub record Key : Type 0 where
  pub id : Uuid
  pub suffix : Suffix

unfoldable pub Suffix-discrete : Discrete Suffix
Suffix-discrete = hlevel

unfoldable pub Key-discrete : Discrete Key
Key-discrete = hlevel (ℕ_discrete, Suffix-discrete)

instance unfoldable pub key_eq : Eq Key
unfolding Key-discrete
key_eq = record { dec = Key-discrete }

-- `ObjectNotFoundError`, another `ObjectStorageError`, and `FileExistsError`.
pub data ObjectError : Type 0 where
  not_found failed exists : ObjectError

-- `ObjectStore`
pub record ObjectStore (Objects : Type 0) : Type 0 where
  pub put : Key → List ℕ → Bool → Objects → Result ObjectError (Unit {0}) × Objects
  pub get : Key → ℕ → Objects → Result ObjectError (List ℕ)
  pub delete : List Key → Objects → Result ObjectError ℕ × Objects

abbrev pub is_listed : Key → List Key → Bool
is_listed k [] = false
is_listed k (j ∷ js) = if j == k then true else is_listed k js

-- What the users rely on: an object that was put is read back if it is within the limit, and putting or
-- deleting leaves the objects under other keys.
pub record Behaves {Objects : Type 0} (s : ObjectStore Objects) : Type 0 where
  pub get-put :
      (k : Key) (content : List ℕ) (create_only : Bool) (max_bytes : ℕ) (o : Objects)
      → (s.put k content create_only o).0 ≡ ok tt
      → length content ≤ max_bytes
      → s.get k max_bytes (s.put k content create_only o).1 ≡ ok content
  pub get-put_other :
      (k j : Key) (content : List ℕ) (create_only : Bool) (max_bytes : ℕ) (o : Objects)
      → (k == j) ≡ false
      → s.get j max_bytes (s.put k content create_only o).1 ≡ s.get j max_bytes o
  pub get-delete_other :
      (ks : List Key) (j : Key) (max_bytes : ℕ) (o : Objects)
      → is_listed j ks ≡ false
      → s.get j max_bytes (s.delete ks o).1 ≡ s.get j max_bytes o
