-- ===== src/Storage/Temporary.antt =====
-- cultureshift/asset_storage.py: `TemporaryAssetStore`, which keeps source assets in local files. The lock
-- makes each operation one step; the text of a tombstone is a parameter.
pub mod Closing
use cultureshift.Base.{
  ℕ, String, string_eq, nat_eq, codes_eq, Bool, true, false, not, ◌||◌, List, [], ◌∷◌, Option, none,
  some, ◌==◌, ◌!=◌, ltb, length, is_empty, if◌then◌else◌,
}
use cultureshift.Base.Result.{Result, ok, err}
use cultureshift.Domain.{Uuid}
use cultureshift.Contracts.{UtcDatetime, is_given}
use cultureshift.Analysis.{detect_media_type}
use cultureshift.Storage.{Suffix}
use cultureshift.Storage
use cultureshift.Storage.Assets.{
  AssetFailure, closed, storage, other, UploadError, failure, LoadedAsset, StoredAsset, AssetFormat,
  max_asset_bytes, max_metadata_bytes, extension, is_over, is_declared, stored_asset, check_upload,
}
use cultureshift.Storage.Files.{
  FileName, FilePath, asset_png, asset_jpg, meta_json, asset_part, meta_part, tombstone,
  tombstone_part, Disk, Call, ◌>>◌, exclusive_write, replace, unlink, unlink_all, mkdir, read_file,
  glob,
}

abbrev pub path : Uuid → FileName → FilePath
path id name = record { id = id; name = name }

-- `{id}.{extension}`
abbrev pub final_name : Suffix → FileName
final_name Storage.jpg = asset_jpg
final_name _ = asset_png

-- `_is_closed`
abbrev pub is_closed : Uuid → Disk → Bool
is_closed id d = is_given (d.files (path id tombstone))

-- A step of the `try` of `store`: it is done, or it raises.
abbrev pub Step : Type 0
Step = Disk → Result AssetFailure (Unit {0}) × Disk

infixl 4 ◌then◌
abbrev pub ◌then◌ : Step → Step → Step
(first then second) d = let (r, d') = first d in elim r [ ok _ ↦ second d' | err e ↦ (err e, d') ]

abbrev pub attempt : Call → Step
attempt call d = let (done, d') = call d in (if done then ok tt else err storage, d')

abbrev pub unless_closed : Uuid → Step
unless_closed id d = (if is_closed id d then err closed else ok tt, d)

unfoldable pub write_files : Uuid → Suffix → List ℕ → List ℕ → Step
write_files id suffix content metadata =
    attempt (
      mkdir
      >> exclusive_write (path id asset_part) content
      >> exclusive_write (path id meta_part) metadata)
    then unless_closed id
    then attempt (replace (path id asset_part) (path id (final_name suffix)))
    then unless_closed id
    then attempt (replace (path id meta_part) (path id meta_json))
    then unless_closed id

abbrev pub written_paths : Uuid → Suffix → List FilePath
written_paths id suffix =
    path id asset_part ∷ path id meta_part ∷ path id (final_name suffix) ∷ path id meta_json ∷ []

-- The files are removed before the exception is raised again.
abbrev pub clean_up : Uuid → Suffix → AssetFailure → Disk → Result UploadError StoredAsset × Disk
clean_up id suffix e d =
    let (done, d') = unlink_all (written_paths id suffix) d in
    (if done then err (failure e) else err (failure other), d')

-- The paths that match `{asset_id}.*`.
abbrev pub active_paths : Uuid → List FilePath
active_paths id =
    path id asset_png
    ∷ path id asset_jpg
    ∷ path id meta_json
    ∷ path id asset_part
    ∷ path id meta_part
    ∷ []

module _ (format : AssetFormat) where
  unfoldable pub write_or_clean :
      StoredAsset → Suffix → List ℕ → Disk → Result UploadError StoredAsset × Disk
  write_or_clean stored suffix content d =
      let id = stored.asset.asset_id in
      let (r, d') = write_files id suffix content (format.write stored) d in
      elim r [ ok _ ↦ (ok stored, d') | err e ↦ clean_up id suffix e d' ]

  abbrev pub store_checked :
      StoredAsset → Option Suffix → List ℕ → Disk → Result UploadError StoredAsset × Disk
  store_checked stored found content d = elim (check_upload stored found content) [
    | err e ↦ (err e, d)
    | ok suffix ↦
        if is_closed stored.asset.asset_id d
        then (err (failure closed), d)
        else write_or_clean stored suffix content d
  ]

  -- `store`
  unfoldable pub store :
      Uuid
      → List ℕ
      → String
      → String
      → String
      → UtcDatetime
      → Disk
      → Result UploadError StoredAsset × Disk
  store id content declared provenance rights now d =
      store_checked (stored_asset format id content declared provenance rights now)
        (extension declared) content d

  -- `_read_bounded`
  abbrev pub read_bounded : FilePath → ℕ → Disk → Option (List ℕ) × Disk
  read_bounded p limit d =
      let (content, d') = read_file p d in
      (elim content [ none ↦ none | some c ↦ if ltb limit (length c) then none else some c ], d')

  abbrev pub is_invalid : Uuid → UtcDatetime → StoredAsset → Bool
  is_invalid id now stored =
      stored.asset.asset_id != id
      || ltb stored.size_bytes 1
      || ltb max_asset_bytes stored.size_bytes
      || ltb now stored.created_at

  abbrev pub check_content : StoredAsset → Option (List ℕ) → Result AssetFailure LoadedAsset
  check_content stored none = err storage
  check_content stored (some content) =
      if length content != stored.size_bytes
        || not (is_declared (detect_media_type content) stored.asset.media_type)
        || format.sha256 content != stored.asset.sha256
      then err storage
      else ok (record { asset = stored.asset; content = content })

  -- `asset_path.stat().st_size`
  abbrev pub has_size : ℕ → Option (List ℕ) → Bool
  has_size n none = false
  has_size n (some content) = length content == n

  abbrev pub load_content :
      Uuid → StoredAsset → Option Suffix → Disk → Result AssetFailure LoadedAsset × Disk
  load_content id stored none d = (err storage, d)
  load_content id stored (some suffix) d =
      let p = path id (final_name suffix) in
      let (status, d') = read_file p d in
      let (content, d'') = read_bounded p max_asset_bytes d' in
      if has_size stored.size_bytes status
      then (check_content stored content, d'')
      else (err storage, d')

  abbrev pub load_described :
      Uuid → UtcDatetime → Option StoredAsset → Disk → Result AssetFailure LoadedAsset × Disk
  load_described id now none d = (err storage, d)
  load_described id now (some stored) d =
      if is_invalid id now stored
      then (err storage, d)
      else if is_over stored.asset.expires_at now
      then (err closed, d)
      else load_content id stored (extension stored.asset.media_type) d

  abbrev pub described : Option (List ℕ) → Option StoredAsset
  described none = none
  described (some text) = format.read text

  -- `load`
  unfoldable pub load : Uuid → UtcDatetime → Disk → Result AssetFailure LoadedAsset × Disk
  load id now d =
      let (text, d') = read_bounded (path id meta_json) max_metadata_bytes d in
      if is_closed id d then (err closed, d) else load_described id now (described text) d'

-- The tombstone is written when there is none; a failure removes its part.
abbrev pub bury : Uuid → List ℕ → Step
bury id text d =
    let (done, d') =
      (exclusive_write (path id tombstone_part) text
          >> replace (path id tombstone_part) (path id tombstone))
        d in
    let (removed, d'') = unlink (path id tombstone_part) d' in
    if done then (ok tt, d') else if removed then (err storage, d'') else (err other, d'')

abbrev pub bury_new : Uuid → List ℕ → Step
bury_new id text d =
    let (made, d') = mkdir d in
    if is_closed id d
    then (ok tt, d)
    else elim made [ true ↦ bury id text d' | false ↦ (err other, d') ]

-- What follows the listing of the directory.
abbrev pub delete_listed :
    Uuid → (Bool → List ℕ) → Option (List FilePath) → Disk → Result AssetFailure Bool × Disk
delete_listed id text none d = (err other, d)
delete_listed id text (some active) d =
    let existed = not (is_empty active) in
    let (r, d') = (bury_new id (text existed) then attempt (unlink_all active)) d in
    (elim r [ ok _ ↦ ok existed | err e ↦ err e ], d')

-- `delete`, with the text of the tombstone for whether there was a file.
unfoldable pub delete : Uuid → (Bool → List ℕ) → Disk → Result AssetFailure Bool × Disk
delete id text d = let (active, d') = glob (active_paths id) d in delete_listed id text active d'
