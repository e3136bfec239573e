-- ===== src/Storage/Compositions.antt =====
-- cultureshift/composition_storage.py: `CloudCompositionArtifactStore` over an object store. The digest
-- and the JSON text of the metadata are parameters.
use cultureshift.Base.{
  ℕ, String, string_eq, nat_eq, codes_eq, Bool, true, false, not, ◌&&◌, ◌||◌, List, [], ◌∷◌, Option,
  none, some, Eq, string_discrete, ℕ_discrete, ◌==◌, ◌!=◌, ltb, leb, length, if◌then◌else◌,
}
use cultureshift.Base.Result.{Result, ok, err}
use cultureshift.Domain.{Uuid}
use cultureshift.Contracts.{UtcDatetime}
use cultureshift.Analysis.{starts_with, png_signature}
use cultureshift.Storage.{Key, key_eq, composition_png, composition_json, ObjectError, ObjectStore}

pub record StoredCompositionArtifact : Type 0 where
  pub artifact_id : Uuid
  pub sha256 : String
  pub size_bytes : ℕ
  pub expires_at : UtcDatetime

unfoldable pub stored-discrete : Discrete StoredCompositionArtifact
stored-discrete = hlevel (ℕ_discrete, string_discrete)

instance unfoldable pub stored_eq : Eq StoredCompositionArtifact
unfolding stored-discrete
stored_eq = record { dec = stored-discrete }

pub record LoadedCompositionArtifact : Type 0 where
  pub stored : StoredCompositionArtifact
  pub png_bytes : List ℕ

-- `sha256(...).hexdigest()`, the JSON text of a record, and the record of a text that has its members,
-- with a time in UTC.
pub record Format : Type 0 where
  pub sha256 : List ℕ → String
  pub write : StoredCompositionArtifact → List ℕ
  pub read : List ℕ → Option StoredCompositionArtifact

-- `CompositionArtifactError`, always with the same message.
pub data CompositionArtifactError : Type 0 where
  unavailable : CompositionArtifactError

abbrev pub metadata_limit : ℕ
metadata_limit = 65536

abbrev pub png_key : Uuid → Key
png_key id = record { id = id; suffix = composition_png }

abbrev pub json_key : Uuid → Key
json_key id = record { id = id; suffix = composition_json }

module _ {Objects : Type 0} (objects : ObjectStore Objects) (format : Format) (max_bytes : ℕ) where
  abbrev pub record_of : Uuid → List ℕ → UtcDatetime → StoredCompositionArtifact
  record_of id png_bytes expires_at = record {
    artifact_id = id;
    sha256 = format.sha256 png_bytes;
    size_bytes = length png_bytes;
    expires_at = expires_at;
  }

  abbrev pub is_damaged : Uuid → UtcDatetime → Bool → StoredCompositionArtifact → List ℕ → Bool
  is_damaged id now check_expiry stored content =
      stored.artifact_id != id
      || stored.size_bytes != length content
      || format.sha256 content != stored.sha256
      || (check_expiry && leb stored.expires_at now)

  abbrev pub check_loaded :
      Uuid
      → UtcDatetime
      → Bool
      → Option StoredCompositionArtifact
      → List ℕ
      → Result CompositionArtifactError LoadedCompositionArtifact
  check_loaded id now check_expiry none content = err unavailable
  check_loaded id now check_expiry (some stored) content =
      if is_damaged id now check_expiry stored content
      then err unavailable
      else ok (record { stored = stored; png_bytes = content })

  -- The metadata is read before the content; every failure is the same error.
  abbrev pub read_both :
      Uuid
      → UtcDatetime
      → Bool
      → Result ObjectError (List ℕ)
      → Result ObjectError (List ℕ)
      → Result CompositionArtifactError LoadedCompositionArtifact
  read_both id now check_expiry (ok metadata) (ok content) =
      check_loaded id now check_expiry (format.read metadata) content
  read_both id now check_expiry _ _ = err unavailable

  -- `load`
  unfoldable pub load :
      Uuid
      → UtcDatetime
      → Bool
      → Objects
      → Result CompositionArtifactError LoadedCompositionArtifact
  load id now check_expiry o =
      read_both id now check_expiry (objects.get (json_key id) metadata_limit o)
        (objects.get (png_key id) max_bytes o)

  abbrev pub put_metadata :
      StoredCompositionArtifact
      → Result ObjectError (Unit {0}) × Objects
      → Result CompositionArtifactError StoredCompositionArtifact × Objects
  put_metadata stored (err e, o) = (err unavailable, o)
  put_metadata stored (ok _, o) =
      let (r, o') = objects.put (json_key stored.artifact_id) (format.write stored) true o in
      (elim r [ ok _ ↦ ok stored | err e ↦ err unavailable ], o')

  abbrev pub write_both :
      StoredCompositionArtifact
      → List ℕ
      → Objects
      → Result CompositionArtifactError StoredCompositionArtifact × Objects
  write_both stored png_bytes o =
      put_metadata stored (objects.put (png_key stored.artifact_id) png_bytes true o)

  -- What is there already is returned if it is the same; otherwise the writes are tried.
  abbrev pub is_same :
      StoredCompositionArtifact
      → List ℕ
      → Result CompositionArtifactError LoadedCompositionArtifact
      → Bool
  is_same stored png_bytes (ok existing) =
      existing.stored == stored && existing.png_bytes == png_bytes
  is_same stored png_bytes (err e) = false

  -- `save`
  unfoldable pub save :
      Uuid
      → List ℕ
      → UtcDatetime
      → UtcDatetime
      → Objects
      → Result CompositionArtifactError StoredCompositionArtifact × Objects
  save id png_bytes expires_at now o =
      let stored = record_of id png_bytes expires_at in
      if not (starts_with png_bytes png_signature) || ltb max_bytes (length png_bytes)
      then (err unavailable, o)
      else if is_same stored png_bytes (load id now false o)
      then (ok stored, o)
      else write_both stored png_bytes o

  -- `delete`
  unfoldable pub delete : Uuid → Objects → Result ObjectError Bool × Objects
  delete id o =
      let (r, o') = objects.delete (png_key id ∷ json_key id ∷ []) o in
      (elim r [ ok n ↦ ok (not (n == 0)) | err e ↦ err e ], o')
