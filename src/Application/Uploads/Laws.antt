-- ===== src/Application/Uploads/Laws.antt =====
-- An upload that was answered is loaded with the bytes that were sent; a deletion closes the asset.
use cultureshift.Base.{
  ℕ, ◌+◌, ◌<◌, ◌≤◌, String, Bool, true, false, List, [], ◌∷◌, ◌++◌, Option, none, some, length, ◌≡◌,
  refl, ap, arith,
}
use cultureshift.Base.Result.{Result, ok, err}
use cultureshift.Domain.{Uuid, utc}
use cultureshift.Contracts.{AssetUploaded, UtcDatetime}
use cultureshift.RateLimits.{LimiterError, allow}
use cultureshift.Storage.{ObjectStore, Behaves}
use cultureshift.Storage.Assets.{
  AssetFailure, closed, UploadError, StoredAsset, AssetFormat, max_metadata_bytes, asset_ttl, store,
  load, delete, stored_asset,
}
use cultureshift.Storage.Lifecycle.{delete-closes, is_stored}
use cultureshift.Storage.Roundtrip.{load-store, store-eq}
use cultureshift.Application.{Server}
use cultureshift.Application.Uploads.{
  Assets, Upload, gather, store_upload, receive, limited, upload_asset, delete_asset,
}

-- The deletion was done.
abbrev pub is_done : Result AssetFailure Bool → Bool
is_done (ok existed) = true
is_done (err e) = false

-- `b"".join(chunks)`
abbrev pub join : List ℕ → List (List ℕ) → List ℕ
join content [] = content
join content (chunk ∷ chunks) = join (content ++ chunk) chunks

gather-join :
    (content : List ℕ) (chunks : List (List ℕ)) (all : List ℕ)
    → gather content chunks ≡ some all
    → all ≡ join content chunks
unfolding gather
gather-join content [] all h = ground arith
gather-join content (chunk ∷ chunks) all h =
    ground (arith, gather-join (content ++ chunk) chunks all)

module _ {Store Objects : Type 0} (server : Server Store) (objects : ObjectStore Objects)
    (format : AssetFormat) (now : UtcDatetime) where
  -- A store that was answered succeeded, and the answer leaves its objects.
  abbrev Answered : Result UploadError StoredAsset × Objects → AssetUploaded → Objects → Type 0
  Answered stored answer after =
      (stored.0
        ≡ ok (record {
          asset = answer.asset;
          size_bytes = answer.size_bytes;
          created_at = answer.created_at;
        }))
      × (after ≡ stored.1)

  store_upload-Answered :
      (r : Result UploadError StoredAsset) (o : Objects) (answer : AssetUploaded)
      → (store_upload server objects format now (r, o)).0 ≡ ok answer
      → Answered (r, o) answer (store_upload server objects format now (r, o)).1
  store_upload-Answered r o answer h = ground arith

  abbrev stored_upload : Uuid → Upload → List ℕ → Objects → Result UploadError StoredAsset × Objects
  stored_upload id upload content o =
      store objects format id content upload.media_type upload.provenance_ref upload.rights_ref now
        o

  -- The metadata of an upload.
  abbrev pub described_upload : Uuid → Upload → StoredAsset
  described_upload id upload =
      stored_asset format id (join [] upload.chunks) upload.media_type upload.provenance_ref
        upload.rights_ref now

  receive-Answered :
      (id : Uuid) (upload : Upload) (g : Option (List ℕ)) (o : Objects) (answer : AssetUploaded)
      → gather [] upload.chunks ≡ g
      → (receive server objects format now id upload g o).0 ≡ ok answer
      → Answered
          (stored_upload id upload (join [] upload.chunks) o)
          answer
          (receive server objects format now id upload g o).1
  receive-Answered id upload none o answer e h = cc
  receive-Answered id upload (some content) o answer e h =
      rw (← gather-join [] upload.chunks content e) (
        store_upload-Answered (stored_upload id upload content o).0
          (stored_upload id upload content o).1 answer h)

  limited-Answered :
      (id : Uuid) (upload : Upload) (r : Result LimiterError Bool) (o : Objects)
      (answer : AssetUploaded)
      → (limited server objects format now id upload r o).0 ≡ ok answer
      → Answered
          (stored_upload id upload (join [] upload.chunks) o)
          answer
          (limited server objects format now id upload r o).1
  limited-Answered id upload (err e) o answer h = cc
  limited-Answered id upload (ok false) o answer h = cc
  limited-Answered id upload (ok true) o answer h =
      receive-Answered id upload (gather [] upload.chunks) o answer refl h

  upload_asset-Answered :
      (id : Uuid) (upload : Upload) (a : Assets Objects) (answer : AssetUploaded)
      → (upload_asset server objects format now id upload a).0 ≡ ok answer
      → Answered
          (stored_upload id upload (join [] upload.chunks) a.objects)
          answer
          (upload_asset server objects format now id upload a).1.objects
  unfolding upload_asset
  upload_asset-Answered id upload a answer h =
      limited-Answered id upload (allow upload.client (utc now) a.limiter).0 a.objects answer h

  -- When the object store behaves, and the JSON text of the metadata is within the limit and reads back
  -- as the metadata: an asset whose upload was answered is loaded, for the next twenty-four hours, with the
  -- bytes that were sent and with the reference of the answer.
  pub load-upload_asset :
      (id : Uuid) (upload : Upload) (a : Assets Objects) (answer : AssetUploaded)
      (later : UtcDatetime)
      → Behaves objects
      → (let stored = described_upload id upload in format.read (format.write stored) ≡ some stored)
      → length (format.write (described_upload id upload)) ≤ max_metadata_bytes
      → (upload_asset server objects format now id upload a).0 ≡ ok answer
      → now ≤ later
      → later < now + asset_ttl
      → load objects format id later (upload_asset server objects format now id upload a).1.objects
        ≡ ok (record { asset = answer.asset; content = join [] upload.chunks })
  load-upload_asset id upload a answer later b reads small h started ahead =
      let answered = upload_asset-Answered id upload a answer h in
      let content = join [] upload.chunks in
      let kept =
        store-eq objects format id content upload.media_type upload.provenance_ref upload.rights_ref
          now a.objects _ answered.0 in
      rw (answered.1, ap (λ s. s.asset) kept)
        (load-store objects format id content upload.media_type upload.provenance_ref
          upload.rights_ref now later a.objects _ b reads small answered.0 started ahead)

  delete_asset-ok :
      (id : Uuid) (header : List ℕ) (a : Assets Objects)
      → (delete_asset server objects format now id header a).0 ≡ ok tt
      → (is_done (delete objects format id now "deleted" a.objects).0 ≡ true)
        × ((delete_asset server objects format now id header a).1.objects
            ≡ (delete objects format id now "deleted" a.objects).1)
  unfolding delete_asset
  delete_asset-ok id header a h = ground arith

  is_done-ok :
      (r : Result AssetFailure Bool) → is_done r ≡ true → (existed : Bool) × (r ≡ ok existed)
  is_done-ok (ok existed) h = (existed, refl)
  is_done-ok (err e) h = cc

  -- When the object store behaves and tombstones are within the limit: once a request to delete an
  -- asset was answered as done, the asset is closed to every load, and a store under its identifier is
  -- refused and leaves the objects as they are.
  pub delete_asset-closes :
      (id : Uuid) (header : List ℕ) (a : Assets Objects) (later : UtcDatetime) (content : List ℕ)
      (declared provenance rights : String)
      → Behaves objects
      → length (format.tombstone now "deleted") ≤ max_metadata_bytes
      → (delete_asset server objects format now id header a).0 ≡ ok tt
      → let after = (delete_asset server objects format now id header a).1.objects in
        let again = store objects format id content declared provenance rights later after in
        (load objects format id later after ≡ err closed)
        × (is_stored again.0 ≡ false)
        × (again.1 ≡ after)
  delete_asset-closes id header a later content declared provenance rights b small h =
      let done = delete_asset-ok id header a h in
      let (existed, deleted) = is_done-ok _ done.0 in
      rw (done.1) (
        delete-closes objects format id now later "deleted" a.objects existed content declared
          provenance rights b small deleted)
