-- ===== src/Storage/Roundtrip.antt =====
-- An asset that was stored is loaded with its content.
use cultureshift.Base.{
  ℕ, ◌+◌, ◌<◌, ◌≤◌, String, string_eq, nat_eq, true, false, List, Option, none, some, ◌==◌, length,
  ◌≡◌, refl, ◌∙◌, arith,
}
use cultureshift.Base.Result.{ok, err}
use cultureshift.Domain.{Uuid}
use cultureshift.Contracts.{UtcDatetime}
use cultureshift.Storage.{key_eq, Suffix, meta, deleted, ObjectError, ObjectStore, Behaves}
use cultureshift.Storage.Assets.{
  StoredAsset, AssetFormat, max_asset_bytes, max_metadata_bytes, asset_ttl, extension, key,
  stored_asset, store, load, write_asset, store_checked,
}

meta-ne-deleted : (id : Uuid) → (key id meta == key id deleted) ≡ false
unfolding key_eq
meta-ne-deleted id = ground arith

-- The key of a content is neither that of the tombstone nor that of the metadata.
content_keys :
    (id : Uuid) (declared : String) (suffix : Suffix)
    → extension declared ≡ some suffix
    → ((key id suffix == key id deleted) ≡ false) × ((key id meta == key id suffix) ≡ false)
unfolding key_eq
content_keys id declared suffix h = ground arith

module _ {Objects : Type 0} (objects : ObjectStore Objects) (format : AssetFormat) where
  -- Both objects were written.
  abbrev Wrote : StoredAsset → Suffix → List ℕ → Objects → Objects → Type 0
  Wrote stored suffix content o after =
      let id = stored.asset.asset_id in
      let first = objects.put (key id suffix) content true o in
      let second = objects.put (key id meta) (format.write stored) true first.1 in
      (first.0 ≡ ok tt) × (second.0 ≡ ok tt) × (after ≡ second.1)

  write_asset-Wrote :
      (stored s : StoredAsset) (suffix : Suffix) (content : List ℕ) (o : Objects)
      → (write_asset objects format stored suffix content o).0 ≡ ok s
      → Wrote stored suffix content o (write_asset objects format stored suffix content o).1
  unfolding write_asset
  write_asset-Wrote stored s suffix content o h = ground arith

  store_checked-Wrote :
      (stored s : StoredAsset) (suffix : Suffix) (content : List ℕ) (o : Objects)
      → (store_checked objects format stored (some suffix) content o).0 ≡ ok s
      → (length content ≤ max_asset_bytes)
        × (objects.get (key stored.asset.asset_id deleted) max_metadata_bytes o
            ≡ err ObjectError.not_found)
        × Wrote stored suffix content o
            (store_checked objects format stored (some suffix) content o).1
  store_checked-Wrote stored s suffix content o h =
      ground (arith, write_asset-Wrote stored s suffix content o)

  module _ (stored : StoredAsset) (suffix : Suffix) (content : List ℕ) (o after : Objects)
      (b : Behaves objects) (wrote : Wrote stored suffix content o after) where
    get-tombstone :
        (key stored.asset.asset_id suffix == key stored.asset.asset_id deleted) ≡ false
        → objects.get (key stored.asset.asset_id deleted) max_metadata_bytes after
          ≡ objects.get (key stored.asset.asset_id deleted) max_metadata_bytes o
    get-tombstone d =
        rw
          (
            wrote.2,
            b.get-put_other (key stored.asset.asset_id meta) (key stored.asset.asset_id deleted)
                (format.write stored) true max_metadata_bytes _
                (meta-ne-deleted stored.asset.asset_id),
          )
          (b.get-put_other (key stored.asset.asset_id suffix) (key stored.asset.asset_id deleted)
            content true max_metadata_bytes o d)

    get-meta :
        length (format.write stored) ≤ max_metadata_bytes
        → objects.get (key stored.asset.asset_id meta) max_metadata_bytes after
          ≡ ok (format.write stored)
    get-meta small = rw (wrote.2) (
        b.get-put (key stored.asset.asset_id meta) (format.write stored) true max_metadata_bytes _
          wrote.1 small)

    get-content :
        (key stored.asset.asset_id meta == key stored.asset.asset_id suffix) ≡ false
        → length content ≤ max_asset_bytes
        → objects.get (key stored.asset.asset_id suffix) max_asset_bytes after ≡ ok content
    get-content m fits =
        rw
          (
            wrote.2,
            b.get-put_other (key stored.asset.asset_id meta) (key stored.asset.asset_id suffix)
                (format.write stored) true max_asset_bytes _ m,
          )
          (b.get-put (key stored.asset.asset_id suffix) content true max_asset_bytes o wrote.0 fits)

  load-parts :
      (id : Uuid) (now later : UtcDatetime) (content : List ℕ) (declared provenance rights : String)
      (suffix : Suffix) (o : Objects)
      → let stored = stored_asset format id content declared provenance rights now in
        objects.get (key id deleted) max_metadata_bytes o ≡ err ObjectError.not_found
        → objects.get (key id meta) max_metadata_bytes o ≡ ok (format.write stored)
        → objects.get (key id suffix) max_asset_bytes o ≡ ok content
        → format.read (format.write stored) ≡ some stored
        → extension declared ≡ some suffix
        → now ≤ later
        → later < now + asset_ttl
        → load objects format id later o ≡ ok (record { asset = stored.asset; content = content })
  unfolding load
  load-parts id now later content declared provenance rights suffix o d m c reads e started open_ =
      ground arith

  -- When the object store behaves, and the JSON text of the metadata is within the limit and reads back
  -- as the metadata: an asset that was stored is loaded with its content and its reference for the next
  -- twenty-four hours.
  pub load-store :
      (id : Uuid) (content : List ℕ) (declared provenance rights : String) (now later : UtcDatetime)
      (o : Objects) (s : StoredAsset)
      → Behaves objects
      → (let stored = stored_asset format id content declared provenance rights now in
          format.read (format.write stored) ≡ some stored)
      → (let stored = stored_asset format id content declared provenance rights now in
          length (format.write stored) ≤ max_metadata_bytes)
      → (store objects format id content declared provenance rights now o).0 ≡ ok s
      → now ≤ later
      → later < now + asset_ttl
      → load objects format id later
          (store objects format id content declared provenance rights now o).1
        ≡ ok (record {
          asset = (stored_asset format id content declared provenance rights now).asset;
          content = content;
        })
  unfolding store
  load-store id content declared provenance rights now later o s b reads small h started ahead =
      after (extension declared) refl h
    where
      stored : StoredAsset
      stored = stored_asset format id content declared provenance rights now

      after :
          (e : Option Suffix)
          → extension declared ≡ e
          → (store_checked objects format stored e content o).0 ≡ ok s
          → load objects format id later (store_checked objects format stored e content o).1
            ≡ ok (record { asset = stored.asset; content = content })
      after none e k = cc
      after (some suffix) e k =
          let o' = (store_checked objects format stored (some suffix) content o).1 in
          let parts = store_checked-Wrote stored s suffix content o k in
          let keys = content_keys id declared suffix e in
          load-parts id now later content declared provenance rights suffix o'
            (get-tombstone stored suffix content o o' b parts.2 keys.0 ∙ parts.1)
            (get-meta stored suffix content o o' b parts.2 small)
            (get-content stored suffix content o o' b parts.2 keys.1 parts.0) reads e started ahead

  write_asset-eq :
      (stored s : StoredAsset) (suffix : Suffix) (content : List ℕ) (o : Objects)
      → (write_asset objects format stored suffix content o).0 ≡ ok s
      → s ≡ stored
  unfolding write_asset
  write_asset-eq stored s suffix content o h = ground arith

  store_checked-eq :
      (stored s : StoredAsset) (suffix : Option Suffix) (content : List ℕ) (o : Objects)
      → (store_checked objects format stored suffix content o).0 ≡ ok s
      → s ≡ stored
  store_checked-eq stored s none content o h = cc
  store_checked-eq stored s (some suffix) content o h =
      ground (arith, write_asset-eq stored s suffix content o)

  pub store-eq :
      (id : Uuid) (content : List ℕ) (declared provenance rights : String) (now : UtcDatetime)
      (o : Objects) (s : StoredAsset)
      → (store objects format id content declared provenance rights now o).0 ≡ ok s
      → s ≡ stored_asset format id content declared provenance rights now
  unfolding store
  store-eq id content declared provenance rights now o s h =
      store_checked-eq (stored_asset format id content declared provenance rights now) s
        (extension declared) content o h
