-- ===== src/Storage/Images.antt =====
-- The store of composed images gives back what was saved, and never anything damaged.
use cultureshift.Base.{
  ℕ, ◌<◌, ◌≤◌, string_eq, nat_eq, codes_eq, true, false, List, some, ◌==◌, length, ◌≡◌, arith, ◌⊎◌,
  inl, inr,
}
use cultureshift.Base.Result.{ok}
use cultureshift.Domain.{Uuid}
use cultureshift.Contracts.{UtcDatetime}
use cultureshift.Storage.{key_eq, ObjectStore, Behaves}
use cultureshift.Storage.Compositions.{
  StoredCompositionArtifact, stored_eq, LoadedCompositionArtifact, Format, metadata_limit, png_key,
  json_key, record_of, load, save, is_same, write_both, check_loaded,
}

json-ne-png : (id : Uuid) → (json_key id == png_key id) ≡ false
unfolding key_eq
json-ne-png id = ground arith

module _ {Objects : Type 0} (objects : ObjectStore Objects) (format : Format) (max_bytes : ℕ) where
  -- What `load` returns carries the identifier that was asked for, has the size and the digest of its
  -- metadata, and has not expired.
  pub load-intact :
      (id : Uuid) (now : UtcDatetime) (o : Objects) (l : LoadedCompositionArtifact)
      → load objects format max_bytes id now true o ≡ ok l
      → (l.stored.artifact_id ≡ id)
        × (l.stored.size_bytes ≡ length l.png_bytes)
        × (format.sha256 l.png_bytes ≡ l.stored.sha256)
        × (now < l.stored.expires_at)
  unfolding load
  load-intact id now o l h = ground arith

  load-expiry :
      (id : Uuid) (now later : UtcDatetime) (o : Objects) (stored : StoredCompositionArtifact)
      (png_bytes : List ℕ)
      → is_same objects format max_bytes stored png_bytes
          (load objects format max_bytes id now false o)
        ≡ true
      → later < stored.expires_at
      → load objects format max_bytes id later true o
        ≡ ok (record { stored = stored; png_bytes = png_bytes })
  unfolding load
  load-expiry id now later o stored png_bytes h k = ground arith

  check_loaded-record :
      (id : Uuid) (now expires_at : UtcDatetime) (png_bytes : List ℕ)
      → now < expires_at
      → check_loaded objects format max_bytes id now true
          (some (record_of objects format max_bytes id png_bytes expires_at))
          png_bytes
        ≡ ok (record {
          stored = record_of objects format max_bytes id png_bytes expires_at;
          png_bytes = png_bytes;
        })
  check_loaded-record id now expires_at png_bytes h = ground arith

  -- Both writes succeeded, if the artifact was written.
  write_both-ok :
      (stored s : StoredCompositionArtifact) (png_bytes : List ℕ) (o : Objects)
      → (write_both objects format max_bytes stored png_bytes o).0 ≡ ok s
      → let (r, o₁) = objects.put (png_key stored.artifact_id) png_bytes true o in
        let second = objects.put (json_key stored.artifact_id) (format.write stored) true o₁ in
        (r ≡ ok tt)
        × (second.0 ≡ ok tt)
        × ((write_both objects format max_bytes stored png_bytes o).1 ≡ second.1)
  write_both-ok stored s png_bytes o h = ground arith

  -- A save returned what was there, or it wrote.
  save-ok :
      (id : Uuid) (png_bytes : List ℕ) (expires_at now : UtcDatetime) (o : Objects)
      (s : StoredCompositionArtifact)
      → (save objects format max_bytes id png_bytes expires_at now o).0 ≡ ok s
      → let stored = record_of objects format max_bytes id png_bytes expires_at in
        let after = (save objects format max_bytes id png_bytes expires_at now o).1 in
        let found = load objects format max_bytes id now false o in
        (length png_bytes ≤ max_bytes)
        × (((is_same objects format max_bytes stored png_bytes found ≡ true) × (after ≡ o))
            ⊎ (((write_both objects format max_bytes stored png_bytes o).0 ≡ ok s)
                × (after ≡ (write_both objects format max_bytes stored png_bytes o).1)))
  unfolding save
  save-ok id png_bytes expires_at now o s h = ground arith

  load-written :
      (id : Uuid) (png_bytes : List ℕ) (expires_at later : UtcDatetime) (o : Objects)
      → let stored = record_of objects format max_bytes id png_bytes expires_at in
        let first = objects.put (png_key id) png_bytes true o in
        let second = objects.put (json_key id) (format.write stored) true first.1 in
        Behaves objects
        → format.read (format.write stored) ≡ some stored
        → length (format.write stored) ≤ metadata_limit
        → length png_bytes ≤ max_bytes
        → first.0 ≡ ok tt
        → second.0 ≡ ok tt
        → later < expires_at
        → load objects format max_bytes id later true second.1
          ≡ ok (record { stored = stored; png_bytes = png_bytes })
  unfolding load
  load-written id png_bytes expires_at later o b reads small fits first second k =
      let stored = record_of objects format max_bytes id png_bytes expires_at in
      rw
        (
          b.get-put (json_key id) (format.write stored) true metadata_limit _ second small,
          b.get-put_other (json_key id) (png_key id) (format.write stored) true max_bytes _
              (json-ne-png id),
          b.get-put (png_key id) png_bytes true max_bytes o first fits,
          reads,
        )
        (check_loaded-record id later expires_at png_bytes k)

  -- When the object store behaves, the JSON text of the record is within the limit and reads back as the
  -- record, and `save` succeeded: until it expires, `load` gives the bytes that were saved, with their
  -- digest, size and time.
  pub load-save :
      (id : Uuid) (png_bytes : List ℕ) (expires_at now later : UtcDatetime) (o : Objects)
      (s : StoredCompositionArtifact)
      → Behaves objects
      → (let stored = record_of objects format max_bytes id png_bytes expires_at in
          format.read (format.write stored) ≡ some stored)
      → (let stored = record_of objects format max_bytes id png_bytes expires_at in
          length (format.write stored) ≤ metadata_limit)
      → (save objects format max_bytes id png_bytes expires_at now o).0 ≡ ok s
      → later < expires_at
      → load objects format max_bytes id later true
          (save objects format max_bytes id png_bytes expires_at now o).1
        ≡ ok (record {
          stored = record_of objects format max_bytes id png_bytes expires_at;
          png_bytes = png_bytes;
        })
  load-save id png_bytes expires_at now later o s b reads small h k =
      let stored = record_of objects format max_bytes id png_bytes expires_at in
      let saved = save-ok id png_bytes expires_at now o s h in
      elim saved.1 [
        | inl (there, kept) ↦ rw kept (load-expiry id now later o stored png_bytes there k)
        | inr (wrote, after) ↦
            let parts = write_both-ok stored s png_bytes o wrote in
            rw (after, parts.2)
              (load-written id png_bytes expires_at later o b reads small saved.0 parts.0 parts.1 k)
      ]
