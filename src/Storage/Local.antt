-- ===== src/Storage/Local.antt =====
-- cultureshift/composition_storage.py: `CompositionArtifactStore`, which keeps composed images in local
-- files. The lock makes each operation one step.
pub mod Atomic
use cultureshift.Base.{
  ℕ, String, string_eq, nat_eq, codes_eq, Bool, true, false, not, ◌&&◌, ◌||◌, List, [], ◌∷◌, Option,
  none, some, ◌==◌, ◌!=◌, ltb, leb, length, if◌then◌else◌,
}
use cultureshift.Base.Result.{Result, ok, err}
use cultureshift.Domain.{Uuid}
use cultureshift.Contracts.{UtcDatetime, is_given}
use cultureshift.Analysis.{starts_with, png_signature}
use cultureshift.Storage.Compositions.{
  StoredCompositionArtifact, stored_eq, LoadedCompositionArtifact, Format,
}
use cultureshift.Storage.Files.{
  FilePath, png, json, png_part, json_part, Disk, Call, ◌>>◌, exclusive_write, replace, unlink,
  unlink_all, mkdir, read_file,
}

-- `CompositionArtifactError`, or an `OSError` that is not caught.
pub data StoreError : Type 0 where
  unavailable os_error : StoreError

abbrev pub png_path : Uuid → FilePath
png_path id = record { id = id; name = png }

abbrev pub metadata_path : Uuid → FilePath
metadata_path id = record { id = id; name = json }

abbrev pub png_part_path : Uuid → FilePath
png_part_path id = record { id = id; name = png_part }

abbrev pub metadata_part_path : Uuid → FilePath
metadata_part_path id = record { id = id; name = json_part }

-- The parts are written, and then moved to their places.
unfoldable pub write_files : Uuid → List ℕ → List ℕ → Call
write_files id png_bytes metadata =
    exclusive_write (png_part_path id) png_bytes
    >> exclusive_write (metadata_part_path id) metadata
    >> replace (png_part_path id) (png_path id)
    >> replace (metadata_part_path id) (metadata_path id)

abbrev pub all_paths : Uuid → List FilePath
all_paths id = png_part_path id ∷ metadata_part_path id ∷ png_path id ∷ metadata_path id ∷ []

-- The files are removed before the error is raised.
abbrev pub clean_up : Uuid → Disk → Result StoreError StoredCompositionArtifact × Disk
clean_up id d =
    let (done, d') = unlink_all (all_paths id) d in
    (if done then err unavailable else err os_error, d')

-- `delete`: whether something was removed.
abbrev pub unlink_present : FilePath → Disk → Bool × (Bool × Disk)
unlink_present p d =
    if is_given (d.files p)
    then (let (done, d') = unlink p d in (done, (done, d')))
    else (true, (false, d))

unfoldable pub delete : Uuid → Disk → Result StoreError Bool × Disk
delete id d =
    let (first, (removed, d')) = unlink_present (png_path id) d in
    let (second, (removed', d'')) = unlink_present (metadata_path id) d' in
    if not first
    then (err os_error, d')
    else if not second
    then (err os_error, d'')
    else (ok (removed || removed'), d'')

module _ (format : Format) (max_bytes : ℕ) where
  abbrev pub describe : Uuid → List ℕ → UtcDatetime → StoredCompositionArtifact
  describe id png_bytes expires_at = record {
    artifact_id = id;
    sha256 = format.sha256 png_bytes;
    size_bytes = length png_bytes;
    expires_at = expires_at;
  }

  abbrev pub is_damaged : Uuid → UtcDatetime → Bool → StoredCompositionArtifact → List ℕ → Bool
  is_damaged id now check_expiry stored content =
      stored.artifact_id != id
      || stored.size_bytes != length content
      || ltb stored.size_bytes 9
      || ltb max_bytes stored.size_bytes
      || format.sha256 content != stored.sha256
      || not (starts_with content png_signature)
      || (check_expiry && leb stored.expires_at now)

  abbrev pub check_loaded :
      Uuid
      → UtcDatetime
      → Bool
      → Option StoredCompositionArtifact
      → List ℕ
      → Result StoreError LoadedCompositionArtifact
  check_loaded id now check_expiry none content = err unavailable
  check_loaded id now check_expiry (some stored) content =
      if is_damaged id now check_expiry stored content
      then err unavailable
      else ok (record { stored = stored; png_bytes = content })

  abbrev pub check_content :
      Uuid
      → UtcDatetime
      → Bool
      → List ℕ
      → Option (List ℕ)
      → Result StoreError LoadedCompositionArtifact
  check_content id now check_expiry metadata none = err unavailable
  check_content id now check_expiry metadata (some content) =
      check_loaded id now check_expiry (format.read metadata) content

  -- The content is read when the metadata was.
  abbrev pub read_content :
      Uuid
      → UtcDatetime
      → Bool
      → Option (List ℕ)
      → Disk
      → Result StoreError LoadedCompositionArtifact × Disk
  read_content id now check_expiry none d = (err unavailable, d)
  read_content id now check_expiry (some metadata) d =
      let (content, d') = read_file (png_path id) d in
      (check_content id now check_expiry metadata content, d')

  -- `_load_unlocked`
  unfoldable pub load_unlocked :
      Uuid → UtcDatetime → Bool → Disk → Result StoreError LoadedCompositionArtifact × Disk
  load_unlocked id now check_expiry d =
      let (metadata, d') = read_file (metadata_path id) d in
      read_content id now check_expiry metadata d'

  -- `load`
  unfoldable pub load :
      Uuid → UtcDatetime → Disk → Result StoreError LoadedCompositionArtifact × Disk
  load id now d = load_unlocked id now true d

  unfoldable pub write_or_clean :
      StoredCompositionArtifact → List ℕ → Disk → Result StoreError StoredCompositionArtifact × Disk
  write_or_clean stored png_bytes d =
      let (done, d') = write_files stored.artifact_id png_bytes (format.write stored) d in
      elim done [ true ↦ (ok stored, d') | false ↦ clean_up stored.artifact_id d' ]

  abbrev pub same_or_refuse :
      StoredCompositionArtifact
      → List ℕ
      → Result StoreError LoadedCompositionArtifact × Disk
      → Result StoreError StoredCompositionArtifact × Disk
  same_or_refuse stored png_bytes (err e, d) = (err e, d)
  same_or_refuse stored png_bytes (ok existing, d) =
      if existing.stored == stored && existing.png_bytes == png_bytes
      then (ok stored, d)
      else (err unavailable, d)

  abbrev pub save_locked :
      StoredCompositionArtifact
      → List ℕ
      → UtcDatetime
      → Disk
      → Result StoreError StoredCompositionArtifact × Disk
  save_locked stored png_bytes now d =
      let id = stored.artifact_id in
      if is_given (d.files (png_path id)) || is_given (d.files (metadata_path id))
      then same_or_refuse stored png_bytes (load_unlocked id now false d)
      else write_or_clean stored png_bytes d

  -- `save`; `now` is the time that the check of what is there reads.
  unfoldable pub save :
      Uuid
      → List ℕ
      → UtcDatetime
      → UtcDatetime
      → Disk
      → Result StoreError StoredCompositionArtifact × Disk
  save id png_bytes expires_at now d =
      if not (starts_with png_bytes png_signature)
        || ltb (length png_bytes) 9
        || ltb max_bytes (length png_bytes)
      then (err unavailable, d)
      else (let (made, d') = mkdir d in
          elim made [
            | true ↦ save_locked (describe id png_bytes expires_at) png_bytes now d'
            | false ↦ (err os_error, d')
          ])
