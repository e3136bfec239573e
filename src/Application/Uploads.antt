-- ===== src/Application/Uploads.antt =====
-- app.py: the handlers that upload and delete a source asset, over the cloud store of assets and the
-- limiter of uploads.
pub mod Laws
use cultureshift.Base.{
  ℕ, ◌≤◌, String, Bool, true, false, not, ◌&&◌, ◌||◌, List, [], ◌∷◌, ◌++◌, Option, none, some, ltb,
  leb, length, ◌≡◌, ◌⊎◌, inl, inr, refl, ap, arith, if◌then◌else◌,
}
use cultureshift.Base.Result.{Result, ok, err}
use cultureshift.Domain.{Uuid, utc}
use cultureshift.Contracts.{AssetRef, AssetUploaded, asset_uploaded_valid, UtcDatetime}
use cultureshift.RateLimits.{Limiter, LimiterError, allow}
use cultureshift.Capabilities.{Capability, issue, TokenError}
use cultureshift.Storage.{ObjectStore, Behaves}
use cultureshift.Storage.Assets.{
  AssetFailure, closed, storage, other, UploadError, asset_empty, too_large, unsupported_type,
  type_mismatch, invalid_metadata, failure, LoadedAsset, StoredAsset, AssetFormat, max_asset_bytes,
  max_metadata_bytes, store, load, delete,
}
use cultureshift.Storage.Lifecycle.{delete-closes}
use cultureshift.Application.{HttpError, http, uncaught, Server, authorize, uuid_text}

-- What the handlers of assets change.
pub record Assets (Objects : Type 0) : Type 0 where
  pub limiter : Limiter
  pub objects : Objects

-- The parts of an upload that the handler reads.
pub record Upload : Type 0 where
  pub client : String
  pub chunks : List (List ℕ)
  pub media_type : String
  pub provenance_ref : String
  pub rights_ref : String

abbrev pub too_large_answer : HttpError
too_large_answer = http 413 "asset_too_large"

abbrev pub storage_failed : HttpError
storage_failed = http 500 "asset_storage_failed"

abbrev pub upload_answer : UploadError → HttpError
upload_answer asset_empty = http 400 "asset_empty"
upload_answer unsupported_type = http 415 "unsupported_asset_type"
upload_answer type_mismatch = http 415 "asset_type_mismatch"
upload_answer too_large = too_large_answer
upload_answer invalid_metadata = http 422 "invalid_asset_metadata"
upload_answer (failure closed) = http 409 "asset_lifecycle_closed"
upload_answer (failure e) = storage_failed

-- The chunks that `request.stream()` gives, until they are too many.
unfoldable pub gather : List ℕ → List (List ℕ) → Option (List ℕ)
gather content [] = some content
gather content (chunk ∷ chunks) =
    let rest = gather (content ++ chunk) chunks in
    if ltb max_asset_bytes (length (content ++ chunk)) then none else rest

module _ {Store Objects : Type 0} (server : Server Store) (store_of : ObjectStore Objects)
    (format : AssetFormat) (now : UtcDatetime) where
  abbrev pub uploaded : StoredAsset → List ℕ → AssetUploaded
  uploaded stored token = record {
    asset = stored.asset;
    size_bytes = stored.size_bytes;
    created_at = stored.created_at;
    delete_capability_token = token;
  }

  -- The token that deletes the asset. If it cannot be issued the asset is deleted.
  abbrev pub answer_stored :
      StoredAsset → Result TokenError (List ℕ) → Objects → Result HttpError AssetUploaded × Objects
  answer_stored stored (err e) o = (
    err storage_failed,
    (delete store_of format stored.asset.asset_id now "token_issue_failed" o).1,
  )
  answer_stored stored (ok token) o =
      if asset_uploaded_valid (uploaded stored token)
      then (ok (uploaded stored token), o)
      else (err storage_failed, o)

  abbrev pub store_upload :
      Result UploadError StoredAsset × Objects → Result HttpError AssetUploaded × Objects
  store_upload (err e, o) = (err (upload_answer e), o)
  store_upload (ok stored, o) =
      answer_stored stored
        (issue server.codec server.tokens (uuid_text stored.asset.asset_id)
          (Capability.delete_asset ∷ []) 86400000000 (utc now))
        o

  abbrev pub receive :
      Uuid → Upload → Option (List ℕ) → Objects → Result HttpError AssetUploaded × Objects
  receive id upload none o = (err too_large_answer, o)
  receive id upload (some content) o = store_upload (
      store store_of format id content upload.media_type upload.provenance_ref upload.rights_ref now
        o)

  abbrev pub limited :
      Uuid → Upload → Result LimiterError Bool → Objects → Result HttpError AssetUploaded × Objects
  limited id upload (err e) o = (err uncaught, o)
  limited id upload (ok false) o = (err (http 429 "upload_rate_limited"), o)
  limited id upload (ok true) o = receive id upload (gather [] upload.chunks) o

  -- `upload_asset`; `id` is the identifier that `uuid4()` gives.
  unfoldable pub upload_asset :
      Uuid → Upload → Assets Objects → Result HttpError AssetUploaded × Assets Objects
  upload_asset id upload a =
      let (allowed, limiter) = allow upload.client (utc now) a.limiter in
      let (r, objects) = limited id upload allowed a.objects in
      (r, record { limiter = limiter; objects = objects })

  abbrev deletion_answer : AssetFailure → HttpError
  deletion_answer storage = http 500 "asset_deletion_failed"
  deletion_answer e = uncaught

  abbrev pub deleted_asset :
      Assets Objects
      → Result AssetFailure Bool × Objects
      → Result HttpError (Unit {0}) × Assets Objects
  deleted_asset a (r, o) =
      (elim r [ ok existed ↦ ok tt | err e ↦ err (deletion_answer e) ], record a { objects = o })

  abbrev pub delete_authorized :
      Uuid
      → Assets Objects
      → Result HttpError (Unit {0})
      → Result HttpError (Unit {0}) × Assets Objects
  delete_authorized id a (err e) = (err e, a)
  delete_authorized id a (ok _) =
      deleted_asset a (delete store_of format id now "deleted" a.objects)

  -- `delete_asset`
  unfoldable pub delete_asset :
      Uuid → List ℕ → Assets Objects → Result HttpError (Unit {0}) × Assets Objects
  delete_asset id header a =
      delete_authorized id a (authorize server Capability.delete_asset id header now)
