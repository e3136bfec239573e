-- ===== src/Storage/Lifecycle.antt =====
-- The life cycle of a source asset: what is loaded is what was stored, until the asset is over, and a
-- tombstone closes it.
use cultureshift.Base.{
  ℕ, ◌≤◌, String, string_eq, nat_eq, Bool, true, false, List, [], ◌∷◌, Option, none, some, length,
  ◌≡◌, refl, ◌∙◌, arith,
}
use cultureshift.Base.Result.{Result, ok, err}
use cultureshift.Domain.{Uuid}
use cultureshift.Contracts.{UtcDatetime}
use cultureshift.Storage.{
  key_eq, Suffix, jpg, meta, deleted, ObjectError, ObjectStore, Behaves, is_listed,
}
use cultureshift.Storage.Assets.{
  closed, UploadError, LoadedAsset, StoredAsset, AssetFormat, max_metadata_bytes, extension, key,
  stored_asset, store, load, delete, is_over, described, suffix_or_png, store_checked,
  delete_objects,
}

abbrev pub is_stored : Result UploadError StoredAsset → Bool
is_stored (ok stored) = true
is_stored (err e) = false

module _ {Objects : Type 0} (objects : ObjectStore Objects) (format : AssetFormat) where
  -- What `load` returns is the asset that was asked for, its content has the digest of its metadata,
  -- its time of expiry lies ahead, and no tombstone was found.
  pub load-intact :
      (id : Uuid) (now : UtcDatetime) (o : Objects) (l : LoadedAsset)
      → load objects format id now o ≡ ok l
      → (l.asset.asset_id ≡ id)
        × (format.sha256 l.content ≡ l.asset.sha256)
        × (is_over l.asset.expires_at now ≡ false)
        × (objects.get (key id deleted) max_metadata_bytes o ≡ err ObjectError.not_found)
  unfolding load
  load-intact id now o l h = ground arith

  closed-load :
      (id : Uuid) (now : UtcDatetime) (o : Objects) (text : List ℕ)
      → objects.get (key id deleted) max_metadata_bytes o ≡ ok text
      → load objects format id now o ≡ err closed
  unfolding load
  closed-load id now o text h = rw (h) refl

  store_checked-closed :
      (stored : StoredAsset) (suffix : Option Suffix) (content : List ℕ) (o : Objects)
      (text : List ℕ)
      → objects.get (key stored.asset.asset_id deleted) max_metadata_bytes o ≡ ok text
      → (is_stored (store_checked objects format stored suffix content o).0 ≡ false)
        × ((store_checked objects format stored suffix content o).1 ≡ o)
  store_checked-closed stored none content o text h = ground arith
  store_checked-closed stored (some suffix) content o text h = ground arith

  closed-store :
      (id : Uuid) (content : List ℕ) (declared provenance rights : String) (now : UtcDatetime)
      (o : Objects) (text : List ℕ)
      → objects.get (key id deleted) max_metadata_bytes o ≡ ok text
      → (is_stored (store objects format id content declared provenance rights now o).0 ≡ false)
        × ((store objects format id content declared provenance rights now o).1 ≡ o)
  unfolding store
  closed-store id content declared provenance rights now o text h =
      store_checked-closed (stored_asset format id content declared provenance rights now)
        (extension declared) content o text h

  -- The tombstone is not among the objects that a deletion removes.
  tombstone-is_unlisted :
      (id : Uuid) (r : Result ObjectError (List ℕ))
      → is_listed (key id deleted) (
          key id meta
          ∷ key id (suffix_or_png objects format (described objects format r))
          ∷ key id jpg
          ∷ [])
        ≡ false
  unfolding key_eq
  tombstone-is_unlisted id r = ground arith

  delete_objects-tombstone :
      (id : Uuid) (found : Option Suffix) (r : Result ObjectError (Unit {0})) (o : Objects)
      (text : List ℕ) (existed : Bool)
      → Behaves objects
      → is_listed
          (key id deleted)
          (key id meta ∷ key id (suffix_or_png objects format found) ∷ key id jpg ∷ [])
        ≡ false
      → (r ≡ ok tt → objects.get (key id deleted) max_metadata_bytes o ≡ ok text)
      → (delete_objects objects format id found (r, o)).0 ≡ ok existed
      → objects.get
          (key id deleted)
          max_metadata_bytes
          (delete_objects objects format id found (r, o)).1
        ≡ ok text
  delete_objects-tombstone id found (err e) o text existed b u g h = cc
  delete_objects-tombstone id found (ok _) o text existed b u g h =
      b.get-delete_other
        (key id meta ∷ key id (suffix_or_png objects format found) ∷ key id jpg ∷ [])
        (key id deleted) max_metadata_bytes o u
      ∙ g refl

  delete-tombstone :
      (id : Uuid) (now : UtcDatetime) (reason : String) (o : Objects) (existed : Bool)
      → Behaves objects
      → length (format.tombstone now reason) ≤ max_metadata_bytes
      → (delete objects format id now reason o).0 ≡ ok existed
      → objects.get (key id deleted) max_metadata_bytes (delete objects format id now reason o).1
        ≡ ok (format.tombstone now reason)
  unfolding delete
  delete-tombstone id now reason o existed b small h =
      let found = objects.get (key id meta) max_metadata_bytes o in
      let put = objects.put (key id deleted) (format.tombstone now reason) false o in
      delete_objects-tombstone id (described objects format found) put.0 put.1
        (format.tombstone now reason) existed b (tombstone-is_unlisted id found)
        (λ done.
          b.get-put (key id deleted) (format.tombstone now reason) false max_metadata_bytes o done
            small)
        h

  -- When the object store behaves and tombstones are within the limit: once an asset was deleted, it is
  -- closed to every load and to every store under its identifier, which leave the objects as they are.
  pub delete-closes :
      (id : Uuid) (now later : UtcDatetime) (reason : String) (o : Objects) (existed : Bool)
      (content : List ℕ) (declared provenance rights : String)
      → Behaves objects
      → length (format.tombstone now reason) ≤ max_metadata_bytes
      → (delete objects format id now reason o).0 ≡ ok existed
      → let after = (delete objects format id now reason o).1 in
        let again = store objects format id content declared provenance rights later after in
        (load objects format id later after ≡ err closed)
        × (is_stored again.0 ≡ false)
        × (again.1 ≡ after)
  delete-closes id now later reason o existed content declared provenance rights b small h =
      let tombstone = delete-tombstone id now reason o existed b small h in
      let after = (delete objects format id now reason o).1 in
      let refused =
        closed-store id content declared provenance rights later after (format.tombstone now reason)
          tombstone in
      (closed-load id later after (format.tombstone now reason) tombstone, refused.0, refused.1)
