-- ===== src/Storage/Files.antt =====
-- The calls of Python's `os` and `pathlib` that the local stores of composition_storage.py and
-- asset_storage.py make, on a disk whose calls may fail. The tests that a file is there (`exists`,
-- `is_file`) are taken to work.
pub mod Laws
use cultureshift.Base.{
  ℕ, Bool, true, false, List, [], ◌∷◌, Option, none, some, Eq, ℕ_discrete, ◌==◌, if◌then◌else◌,
}
use cultureshift.Domain.{Uuid}
use cultureshift.Contracts.{is_given}

-- For a composed image `{id}.png`, `{id}.json`, and the two with `.part`; for a source asset
-- `{id}.png`, `{id}.jpg`, `{id}.meta.json`, `{id}.part` and `{id}.meta.part` in a directory of their own,
-- and there the tombstone and its `.part`.
pub data FileName : Type 0 where
  png json png_part json_part : FileName
  asset_png asset_jpg meta_json asset_part meta_part tombstone tombstone_part : FileName

pub record FilePath : Type 0 where
  pub id : Uuid
  pub name : FileName

unfoldable pub FileName-discrete : Discrete FileName
FileName-discrete = hlevel

unfoldable pub FilePath-discrete : Discrete FilePath
FilePath-discrete = hlevel (ℕ_discrete, FileName-discrete)

instance unfoldable pub path_eq : Eq FilePath
unfolding FilePath-discrete
path_eq = record { dec = FilePath-discrete }

-- How a call goes: it works, it raises `PermissionError` or another `OSError` before anything, or, when
-- it writes a new file, it raises after these bytes were written.
pub data Fault : Type 0 where
  works denied refused : Fault
  torn : List ℕ → Fault

-- The files, and how the next calls go; when the list is at its end, calls work.
pub record Disk : Type 0 where
  pub files : FilePath → Option (List ℕ)
  pub faults : List Fault

abbrev pub next_fault : List Fault → Fault
next_fault [] = works
next_fault (f ∷ fs) = f

abbrev pub later_faults : List Fault → List Fault
later_faults [] = []
later_faults (f ∷ fs) = fs

abbrev pub put_file :
    FilePath → Option (List ℕ) → (FilePath → Option (List ℕ)) → FilePath → Option (List ℕ)
put_file p content files q = if q == p then content else files q

-- A call that may change the files; the Boolean is whether it did not raise `OSError`.
abbrev pub Call : Type 0
Call = Disk → Bool × Disk

abbrev pub set_file : FilePath → Option (List ℕ) → Disk → Disk
set_file p content d = record d { files = put_file p content d.files }

abbrev pub after_fault : Disk → Disk
after_fault d = record d { faults = later_faults d.faults }

-- `os.open` with `O_CREAT | O_EXCL`, the writing and the `fsync`.
abbrev pub write_new : Fault → FilePath → List ℕ → Call
write_new denied p content d = (false, d)
write_new refused p content d = (false, d)
write_new (torn part) p content d =
    if is_given (d.files p) then (false, d) else (false, set_file p (some part) d)
write_new works p content d =
    if is_given (d.files p) then (false, d) else (true, set_file p (some content) d)

unfoldable pub exclusive_write : FilePath → List ℕ → Call
exclusive_write p content d = write_new (next_fault d.faults) p content (after_fault d)

-- `os.replace`
abbrev pub move_file : Fault → FilePath → FilePath → Option (List ℕ) → Call
move_file works source target (some content) d =
    (true, set_file source none (set_file target (some content) d))
move_file _ source target _ d = (false, d)

unfoldable pub replace : FilePath → FilePath → Call
replace source target d =
    move_file (next_fault d.faults) source target (d.files source) (after_fault d)

-- `path.unlink(missing_ok=True)`
abbrev pub remove_file : Fault → FilePath → Call
remove_file works p d = (true, set_file p none d)
remove_file _ p d = (false, d)

unfoldable pub unlink : FilePath → Call
unlink p d = remove_file (next_fault d.faults) p (after_fault d)

-- A call that changes no file: `mkdir` of a directory for the files.
abbrev pub is_working : Fault → Bool
is_working works = true
is_working _ = false

unfoldable pub mkdir : Call
mkdir d = (is_working (next_fault d.faults), after_fault d)

-- `read_bytes` and `read_text`; a failure and a missing file are both `OSError`.
unfoldable pub read_file : FilePath → Disk → Option (List ℕ) × Disk
read_file p d = (if is_working (next_fault d.faults) then d.files p else none, after_fault d)

-- The files that are there, of those that are listed.
abbrev pub present : Disk → List FilePath → List FilePath
present d [] = []
present d (p ∷ ps) = let rest = present d ps in if is_given (d.files p) then p ∷ rest else rest

-- `Path.glob`, for a pattern that these paths match: it takes `PermissionError` for an empty directory,
-- and passes any other `OSError` on, which is `none`.
abbrev pub listing : Fault → List FilePath → Disk → Option (List FilePath) × Disk
listing works ps d = (some (present d ps), d)
listing denied ps d = (some [], d)
listing _ ps d = (none, d)

unfoldable pub glob : List FilePath → Disk → Option (List FilePath) × Disk
glob ps d = listing (next_fault d.faults) ps (after_fault d)

infixl 5 ◌>>◌
abbrev pub ◌>>◌ : Call → Call → Call
◌>>◌ first second d =
    let (done, d') = first d in elim done [ true ↦ second d' | false ↦ (false, d') ]

-- One call after another for each path, until one raises.
unfoldable pub unlink_all : List FilePath → Call
unlink_all [] d = (true, d)
unlink_all (p ∷ ps) d = (unlink p >> unlink_all ps) d
