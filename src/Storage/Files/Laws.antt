-- ===== src/Storage/Files/Laws.antt =====
-- What the calls on files do to each file.
use cultureshift.Base.{
  ℕ, Bool, true, false, List, [], ◌∷◌, none, some, ◌==◌, ◌≡◌, refl, ◌⊎◌, arith, if◌then◌else◌,
}
use cultureshift.Storage.Files.{
  FilePath, path_eq, Disk, unlink, unlink_all, exclusive_write, replace,
}

abbrev pub is_among : FilePath → List FilePath → Bool
is_among q [] = false
is_among q (p ∷ ps) = if q == p then true else is_among q ps

pub unlink-absent :
    (p q : FilePath) (d : Disk)
    → (unlink p d).0 ≡ true
    → ((q == p) ≡ true) ⊎ (d.files q ≡ none)
    → (unlink p d).1.files q ≡ none
unfolding unlink
unlink-absent p q d h k = ground arith

-- A file that is listed, or is not there, is not there when all were removed.
pub unlink_all-absent :
    (ps : List FilePath) (q : FilePath) (d : Disk)
    → (unlink_all ps d).0 ≡ true
    → (is_among q ps ≡ true) ⊎ (d.files q ≡ none)
    → (unlink_all ps d).1.files q ≡ none
unfolding unlink_all
unlink_all-absent [] q d h k = ground arith
unlink_all-absent (p ∷ ps) q d h k =
    ground (arith, unlink-absent p q d, unlink_all-absent ps q (unlink p d).1)

pub exclusive_write-file :
    (p q : FilePath) (content : List ℕ) (d : Disk)
    → (exclusive_write p content d).0 ≡ true
    → (exclusive_write p content d).1.files q ≡ (if q == p then some content else d.files q)
unfolding exclusive_write
exclusive_write-file p q content d h = ground arith

pub replace-file :
    (p target q : FilePath) (content : List ℕ) (d : Disk)
    → (replace p target d).0 ≡ true
    → d.files p ≡ some content
    → (replace p target d).1.files q
      ≡ (if q == p then none else if q == target then some content else d.files q)
unfolding replace
replace-file p target q content d h k = ground arith

pub unlink-kept :
    (p q : FilePath) (d : Disk) → (q == p) ≡ false → (unlink p d).1.files q ≡ d.files q
unfolding unlink
unlink-kept p q d h = ground arith

-- A file that is not listed stays.
pub unlink_all-kept :
    (ps : List FilePath) (q : FilePath) (d : Disk)
    → is_among q ps ≡ false
    → (unlink_all ps d).1.files q ≡ d.files q
unfolding unlink_all
unlink_all-kept [] q d h = refl
unlink_all-kept (p ∷ ps) q d h =
    ground (arith, unlink-kept p q d, unlink_all-kept ps q (unlink p d).1)

pub exclusive_write-kept :
    (p q : FilePath) (content : List ℕ) (d : Disk)
    → (q == p) ≡ false
    → (exclusive_write p content d).1.files q ≡ d.files q
unfolding exclusive_write
exclusive_write-kept p q content d h = ground arith

pub replace-kept :
    (p target q : FilePath) (d : Disk)
    → (q == p) ≡ false
    → (q == target) ≡ false
    → (replace p target d).1.files q ≡ d.files q
unfolding replace
replace-kept p target q d h k = ground arith
