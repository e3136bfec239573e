-- ===== src/Tests/Stories/Files.antt =====
-- The local stores on small disks, and their theorems at them.
use cultureshift.Base.{
  ℕ, Bool, false, List, [], ◌∷◌, some, none, ◌≡◌, refl, nat_eq, codes_eq, string_eq, if◌then◌else◌,
}
use cultureshift.Base.Result.{ok, err}
use cultureshift.Contracts
use cultureshift.Analysis
use cultureshift.Storage.Assets.{stored_asset}
use cultureshift.Storage.Files
use cultureshift.Storage.Files.{
  glob, denied, Disk, Fault, works, refused, torn, FilePath, path_eq, meta_json, tombstone,
  exclusive_write, replace, unlink, unlink_all, mkdir, read_file,
}
use cultureshift.Storage.Local
use cultureshift.Storage.Local.{unavailable, os_error, describe}
use cultureshift.Storage.Local.Atomic.{Settled, save-Settled}
use cultureshift.Storage.Temporary
use cultureshift.Tests.Stories.Stores.{image, format, asset_format}

-- An empty disk on which the calls go like this.
abbrev disk : List Fault → Disk
disk faults = record { files = λ p. none; faults = faults }

-- The second part cannot be written to its end.
abbrev full : Disk
full = disk (works ∷ works ∷ torn (1 ∷ []) ∷ [])

save-Settled_example :
    Settled format
      (describe format 1000 30 image 900)
      image
      (Local.save format 1000 30 image 900 100 full)
save-Settled_example = save-Settled format 1000 30 image 900 100 full refl refl

saved_full : (Local.save format 1000 30 image 900 100 full).0 ≡ err unavailable
unfolding Local.save nat_eq mkdir Local.write_or_clean Local.write_files exclusive_write path_eq
    Files.FileName-discrete unlink_all unlink
saved_full = refl

-- The disk fails again when the parts are to be removed.
saved_broken :
    (Local.save format 1000 30 image 900 100 (disk (works ∷ works ∷ refused ∷ refused ∷ []))).0
    ≡ err os_error
unfolding Local.save nat_eq mkdir Local.write_or_clean Local.write_files exclusive_write unlink_all
    unlink
saved_broken = refl

-- A stored asset, deleted.
abbrev asset_disk : Disk
asset_disk =
    (Temporary.store asset_format 10 image "image/png" "fixture:orbit" "rights:orbit" 100
      (disk [])).1

abbrev tombstone_text : Bool → List ℕ
tombstone_text existed = if existed then 1 ∷ [] else 0 ∷ []

-- The same asset when its directory may not be listed: the deletion returns and the text stays.
abbrev locked_disk : Disk
locked_disk = record asset_disk { faults = denied ∷ [] }

deleted_unlisted :
    ((Temporary.delete 10 tombstone_text locked_disk).0 ≡ ok false)
    × ((Temporary.delete 10 tombstone_text locked_disk).1.files (Temporary.path 10 meta_json)
        ≡ some (
            asset_format.write
              (stored_asset asset_format 10 image "image/png" "fixture:orbit" "rights:orbit" 100)))
unfolding Temporary.delete glob Temporary.store string_eq Analysis.detect_media_type nat_eq
    Contracts.public_reference_valid Contracts.source_ad_valid Temporary.write_or_clean
    Temporary.write_files mkdir exclusive_write path_eq Files.FileName-discrete replace unlink_all
deleted_unlisted = (refl, refl)
