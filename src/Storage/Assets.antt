-- ===== src/Storage/Assets.antt =====
-- cultureshift/asset_storage.py: `CloudAssetStore`, the life cycle of source assets over an object store.
-- A tombstone closes an asset.
use cultureshift.Base.{
  ℕ, ◌+◌, String, string_eq, nat_eq, Bool, true, false, not, ◌&&◌, ◌||◌, List, [], ◌∷◌, Option,
  none, some, ◌==◌, ◌!=◌, ltb, leb, length, is_empty, if◌then◌else◌,
}
use cultureshift.Base.Result.{Result, ok, err}
use cultureshift.Domain.{Uuid}
use cultureshift.Contracts.{
  AssetRef, source_ad, source_ad_valid, public_reference_valid, UtcDatetime,
}
use cultureshift.Analysis.{detect_media_type}
use cultureshift.Storage.{
  Key, Suffix, png, jpg, meta, deleted, ObjectError, not_found, exists, ObjectStore,
}

-- `AssetLifecycleClosedError`, `AssetStorageError`, and exceptions that the store does not make into
-- one of its own.
pub data AssetFailure : Type 0 where
  closed storage other : AssetFailure

-- The refusals of an upload, before the failures above.
pub data UploadError : Type 0 where
  asset_empty too_large unsupported_type type_mismatch invalid_metadata : UploadError
  failure : AssetFailure → UploadError

pub record LoadedAsset : Type 0 where
  pub asset : AssetRef
  pub content : List ℕ

pub record StoredAsset : Type 0 where
  pub asset : AssetRef
  pub size_bytes : ℕ
  pub created_at : UtcDatetime

-- `sha256(...).hexdigest()`, `str.strip`, the JSON texts of metadata and of a tombstone, the metadata
-- of a text that has its members, and the media type of a text that has one.
pub record AssetFormat : Type 0 where
  pub sha256 : List ℕ → String
  pub strip : String → String
  pub write : StoredAsset → List ℕ
  pub read : List ℕ → Option StoredAsset
  pub read_media_type : List ℕ → Option String
  pub tombstone : UtcDatetime → String → List ℕ

abbrev pub max_asset_bytes : ℕ
max_asset_bytes = 10485760

abbrev pub max_metadata_bytes : ℕ
max_metadata_bytes = 65536

abbrev pub asset_ttl : ℕ
asset_ttl = 86400000000

-- `_EXTENSIONS`
abbrev pub extension : String → Option Suffix
extension media_type =
    if media_type == "image/png"
    then some png
    else if media_type == "image/jpeg"
    then some jpg
    else none

abbrev pub key : Uuid → Suffix → Key
key id suffix = record { id = id; suffix = suffix }

abbrev pub is_declared : Option String → String → Bool
is_declared none declared = false
is_declared (some detected) declared = detected == declared

module _ (format : AssetFormat) where
  abbrev pub stored_asset : Uuid → List ℕ → String → String → String → UtcDatetime → StoredAsset
  stored_asset id content media_type provenance rights now = record {
    asset = record {
      asset_id = id;
      kind = source_ad;
      media_type = media_type;
      sha256 = format.sha256 content;
      provenance_ref = format.strip provenance;
      rights_ref = format.strip rights;
      expires_at = some (now + asset_ttl);
    };
    size_bytes = length content;
    created_at = now;
  }

-- The time of expiry, if there is one, has come.
abbrev pub is_over : Option UtcDatetime → UtcDatetime → Bool
is_over none now = false
is_over (some t) now = leb t now

-- The checks of an upload, in their order.
abbrev pub check_upload : StoredAsset → Option Suffix → List ℕ → Result UploadError Suffix
check_upload stored none content = err unsupported_type
check_upload stored (some suffix) content =
    if is_empty content
    then err asset_empty
    else if ltb max_asset_bytes (length content)
    then err too_large
    else if not (is_declared (detect_media_type content) stored.asset.media_type)
    then err type_mismatch
    else if not (
        public_reference_valid stored.asset.provenance_ref
        && public_reference_valid stored.asset.rights_ref)
    then err invalid_metadata
    else if not (source_ad_valid stored.asset)
    then err (failure other)
    else ok suffix

module _ {Objects : Type 0} (objects : ObjectStore Objects) (format : AssetFormat) where
  -- The objects of a store that failed are deleted before the exception.
  abbrev pub undo : Uuid → Suffix → Objects → Result UploadError StoredAsset × Objects
  undo id suffix o =
      let (r, o') = objects.delete (key id suffix ∷ key id meta ∷ []) o in
      (elim r [ ok _ ↦ err (failure storage) | err _ ↦ err (failure other) ], o')

  abbrev pub put_meta :
      StoredAsset
      → Suffix
      → Result ObjectError (Unit {0}) × Objects
      → Result UploadError StoredAsset × Objects
  put_meta stored suffix (err e, o) = undo stored.asset.asset_id suffix o
  put_meta stored suffix (ok _, o) =
      let (r, o') = objects.put (key stored.asset.asset_id meta) (format.write stored) true o in
      elim r [ ok _ ↦ (ok stored, o') | err e ↦ undo stored.asset.asset_id suffix o' ]

  unfoldable pub write_asset :
      StoredAsset → Suffix → List ℕ → Objects → Result UploadError StoredAsset × Objects
  write_asset stored suffix content o =
      put_meta stored suffix (objects.put (key stored.asset.asset_id suffix) content true o)

  -- The tombstone has to be missing.
  abbrev pub unless_closed :
      StoredAsset
      → Suffix
      → List ℕ
      → Result ObjectError (List ℕ)
      → Objects
      → Result UploadError StoredAsset × Objects
  unless_closed stored suffix content (ok tombstone) o = (err (failure closed), o)
  unless_closed stored suffix content (err not_found) o = write_asset stored suffix content o
  unless_closed stored suffix content (err e) o = (err (failure other), o)

  abbrev pub store_checked :
      StoredAsset → Option Suffix → List ℕ → Objects → Result UploadError StoredAsset × Objects
  store_checked stored found content o = elim (check_upload stored found content) [
    | err e ↦ (err e, o)
    | ok suffix ↦
        unless_closed stored suffix content
          (objects.get (key stored.asset.asset_id deleted) max_metadata_bytes o) o
  ]

  -- `store`; the asset is described before the checks, which it does not affect.
  unfoldable pub store :
      Uuid
      → List ℕ
      → String
      → String
      → String
      → UtcDatetime
      → Objects
      → Result UploadError StoredAsset × Objects
  store id content declared provenance rights now o =
      store_checked (stored_asset format id content declared provenance rights now)
        (extension declared) content o

  -- The metadata is for the asset, and for this time.
  abbrev pub is_closed : Uuid → UtcDatetime → StoredAsset → Bool
  is_closed id now stored =
      stored.asset.asset_id != id
      || ltb now stored.created_at
      || is_over stored.asset.expires_at now

  abbrev pub check_content :
      StoredAsset → Result ObjectError (List ℕ) → Result AssetFailure LoadedAsset
  check_content stored (err e) = err storage
  check_content stored (ok content) =
      if length content != stored.size_bytes || format.sha256 content != stored.asset.sha256
      then err storage
      else ok (record { asset = stored.asset; content = content })

  abbrev pub load_content : StoredAsset → Option Suffix → Objects → Result AssetFailure LoadedAsset
  load_content stored none o = err storage
  load_content stored (some suffix) o =
      check_content stored (objects.get (key stored.asset.asset_id suffix) max_asset_bytes o)

  -- A metadata without a time of expiry cannot be compared.
  abbrev pub has_expiry : StoredAsset → Bool
  has_expiry stored = elim stored.asset.expires_at [ none ↦ false | some t ↦ true ]

  abbrev pub load_described :
      Uuid → UtcDatetime → Option StoredAsset → Objects → Result AssetFailure LoadedAsset
  load_described id now none o = err storage
  load_described id now (some stored) o =
      if is_closed id now stored
      then err closed
      else if has_expiry stored
      then load_content stored (extension stored.asset.media_type) o
      else err storage

  abbrev pub load_meta :
      Uuid → UtcDatetime → Result ObjectError (List ℕ) → Objects → Result AssetFailure LoadedAsset
  load_meta id now (err e) o = err storage
  load_meta id now (ok text) o = load_described id now (format.read text) o

  abbrev pub load_open :
      Uuid → UtcDatetime → Result ObjectError (List ℕ) → Objects → Result AssetFailure LoadedAsset
  load_open id now (ok tombstone) o = err closed
  load_open id now (err not_found) o =
      load_meta id now (objects.get (key id meta) max_metadata_bytes o) o
  load_open id now (err e) o = err other

  -- `load`
  unfoldable pub load : Uuid → UtcDatetime → Objects → Result AssetFailure LoadedAsset
  load id now o = load_open id now (objects.get (key id deleted) max_metadata_bytes o) o

  -- The extension of the stored content, if the metadata can be read.
  abbrev pub described : Result ObjectError (List ℕ) → Option Suffix
  described (err e) = none
  described (ok text) = elim (format.read_media_type text) [
    | none ↦ none
    | some media_type ↦ extension media_type
  ]

  abbrev pub suffix_or_png : Option Suffix → Suffix
  suffix_or_png none = png
  suffix_or_png (some suffix) = suffix

  abbrev pub is_described : Option Suffix → Bool
  is_described none = false
  is_described (some suffix) = true

  abbrev failed_deletion : ObjectError → AssetFailure
  failed_deletion exists = other
  failed_deletion e = storage

  abbrev pub delete_objects :
      Uuid
      → Option Suffix
      → Result ObjectError (Unit {0}) × Objects
      → Result AssetFailure Bool × Objects
  delete_objects id found (err e, o) = (err (failed_deletion e), o)
  delete_objects id found (ok _, o) =
      let (r, o') =
        objects.delete (key id meta ∷ key id (suffix_or_png found) ∷ key id jpg ∷ []) o in
      (elim r [ ok _ ↦ ok (is_described found) | err e ↦ err (failed_deletion e) ], o')

  -- `delete`
  unfoldable pub delete : Uuid → UtcDatetime → String → Objects → Result AssetFailure Bool × Objects
  delete id now reason o =
      delete_objects id (described (objects.get (key id meta) max_metadata_bytes o))
        (objects.put (key id deleted) (format.tombstone now reason) false o)
