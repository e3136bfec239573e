-- ===== src/Storage/Local/Atomic.antt =====
-- A failed save of the local store leaves nothing behind, and no operation touches another image.
use cultureshift.Base.{
  ℕ, true, false, List, none, some, ◌==◌, ◌≡◌, ◌⊎◌, arith, nat_eq, codes_eq, string_eq,
}
use cultureshift.Base.Result.{Result, ok, err}
use cultureshift.Domain.{Uuid}
use cultureshift.Contracts.{UtcDatetime}
use cultureshift.Storage.Compositions.{StoredCompositionArtifact, Format}
use cultureshift.Storage.Files.{path_eq, Disk, mkdir, exclusive_write, replace}
use cultureshift.Storage.Files.Laws.{unlink_all-absent, exclusive_write-file, replace-file}
use cultureshift.Storage.Local.{
  StoreError, unavailable, os_error, png_path, metadata_path, png_part_path, metadata_part_path,
  all_paths, describe, write_files, write_or_clean, clean_up, save,
}

-- The paths of an image are different.
paths-distinct :
    (id : Uuid)
    → ((metadata_path id == metadata_part_path id) ≡ false)
      × ((metadata_path id == metadata_path id) ≡ true)
      × ((metadata_part_path id == metadata_part_path id) ≡ true)
      × ((metadata_part_path id == png_part_path id) ≡ false)
      × ((metadata_part_path id == png_path id) ≡ false)
      × ((png_part_path id == metadata_part_path id) ≡ false)
      × ((png_part_path id == png_part_path id) ≡ true)
      × ((png_path id == metadata_part_path id) ≡ false)
      × ((png_path id == metadata_path id) ≡ false)
      × ((png_path id == png_part_path id) ≡ false)
      × ((png_path id == png_path id) ≡ true)
unfolding path_eq
paths-distinct id = ground arith

write_files-done :
    (id : Uuid) (png_bytes metadata : List ℕ) (d : Disk)
    → (write_files id png_bytes metadata d).0 ≡ true
    → ((write_files id png_bytes metadata d).1.files (png_path id) ≡ some png_bytes)
      × ((write_files id png_bytes metadata d).1.files (metadata_path id) ≡ some metadata)
unfolding write_files
write_files-done id png_bytes metadata d h =
    let d1 = (exclusive_write (png_part_path id) png_bytes d).1 in
    let d2 = (exclusive_write (metadata_part_path id) metadata d1).1 in
    let d3 = (replace (png_part_path id) (png_path id) d2).1 in
    ground (
      arith,
      paths-distinct id,
      exclusive_write-file (png_part_path id) (png_part_path id) png_bytes d,
      exclusive_write-file (metadata_part_path id) (png_part_path id) metadata d1,
      exclusive_write-file (metadata_part_path id) (metadata_part_path id) metadata d1,
      replace-file (png_part_path id) (png_path id) (metadata_part_path id) png_bytes d2,
      replace-file (png_part_path id) (png_path id) (png_path id) png_bytes d2,
      replace-file (metadata_part_path id) (metadata_path id) (png_path id) metadata d3,
      replace-file (metadata_part_path id) (metadata_path id) (metadata_path id) metadata d3,
    )

clean_up-absent :
    (id : Uuid) (d : Disk)
    → (((clean_up id d).0 ≡ err unavailable)
        × ((clean_up id d).1.files (png_path id) ≡ none)
        × ((clean_up id d).1.files (metadata_path id) ≡ none))
      ⊎ ((clean_up id d).0 ≡ err os_error)
clean_up-absent id d = ground (
  arith,
  paths-distinct id,
  unlink_all-absent (all_paths id) (png_path id) d,
  unlink_all-absent (all_paths id) (metadata_path id) d,
)

-- What a save may end with: the image and its text are stored; they are not, with the error that the
-- store declares; or `OSError` passed on.
abbrev pub Settled :
    Format
    → StoredCompositionArtifact
    → List ℕ
    → Result StoreError StoredCompositionArtifact × Disk
    → Type 0
Settled format stored png_bytes (r, d) =
    ((r ≡ ok stored)
      × (d.files (png_path stored.artifact_id) ≡ some png_bytes)
      × (d.files (metadata_path stored.artifact_id) ≡ some (format.write stored)))
    ⊎ ((r ≡ err unavailable)
        × (d.files (png_path stored.artifact_id) ≡ none)
        × (d.files (metadata_path stored.artifact_id) ≡ none))
    ⊎ (r ≡ err os_error)

module _ (format : Format) (max_bytes : ℕ) where
  write_or_clean-Settled :
      (stored : StoredCompositionArtifact) (png_bytes : List ℕ) (d : Disk)
      → Settled format stored png_bytes (write_or_clean format max_bytes stored png_bytes d)
  unfolding write_or_clean
  write_or_clean-Settled stored png_bytes d =
      let id = stored.artifact_id in
      let written = write_files id png_bytes (format.write stored) d in
      ground
        (arith, write_files-done id png_bytes (format.write stored) d, clean_up-absent id written.1)

  -- When no file of the image is there: whatever calls of the operating system fail, and whenever they do,
  -- `save` either succeeds and has stored the bytes and the text of their record, or it raises
  -- `CompositionArtifactError` and neither file is there, or an `OSError` passes on.
  pub save-Settled :
      (id : Uuid) (png_bytes : List ℕ) (expires_at now : UtcDatetime) (d : Disk)
      → d.files (png_path id) ≡ none
      → d.files (metadata_path id) ≡ none
      → Settled format
          (describe format max_bytes id png_bytes expires_at)
          png_bytes
          (save format max_bytes id png_bytes expires_at now d)
  unfolding save mkdir
  save-Settled id png_bytes expires_at now d h k = ground (
    arith,
    write_or_clean-Settled (describe format max_bytes id png_bytes expires_at) png_bytes
        (mkdir d).1,
  )
