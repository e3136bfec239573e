-- ===== src/RateLimits/Bounds.antt =====
-- How many calls of a key a window admits.
use mathlib.Core.Path.{subst}
use cultureshift.Base.{
  ℕ, ◌+◌, ◌-◌, ◌<◌, ◌≤◌, min, String, ◌&&◌, List, [], ◌∷◌, some, none, Option, true, ◌++◌, refl,
  sym, ap, ◌∙◌, ◌≡◌, ◌==◌, string_eq, arith, if◌then◌else◌,
}
use cultureshift.RateLimits.{Limiter, admit}

-- A call: its key and its time.
abbrev pub Request : Type 0
Request = String × ℕ

-- The calls of a key among those that are made in order, and those of them that are allowed.
unfoldable pub allowed_count : String → List Request → Limiter → ℕ
allowed_count k [] l = 0
allowed_count k ((key, now) ∷ rs) l =
    let (allowed, l') = admit key now l in
    (if allowed && key == k then 1 else 0) + allowed_count k rs l'

unfoldable pub request_count : String → List Request → ℕ
request_count k [] = 0
request_count k ((key, now) ∷ rs) = (if key == k then 1 else 0) + request_count k rs

-- Every call of the key comes before a time.
abbrev pub AllBefore : String → ℕ → List Request → Type 0
AllBefore k t [] = Unit
AllBefore k t ((key, now) ∷ rs) = (key ≡ k → now < t) × AllBefore k t rs

-- The first calls of a window that has begun are allowed, up to the limit, and no others.
allowed_count-begun :
    (k : String) (start count : ℕ) (rs : List Request) (l : Limiter)
    → l.entries k ≡ some (start, count)
    → count ≤ l.limit
    → AllBefore k (start + l.window) rs
    → allowed_count k rs l ≡ min (request_count k rs) (l.limit - count)
unfolding allowed_count request_count admit
allowed_count-begun k start count [] l e c b = omega arith
allowed_count-begun k start count ((key, now) ∷ rs) l e c b = ground (
  arith,
  allowed_count-begun k start count rs l e c b.1,
  allowed_count-begun k start count rs (admit key now l).1,
  allowed_count-begun k start (count + 1) rs (admit key now l).1,
)

-- The limiter after calls.
unfoldable pub admit_all : List Request → Limiter → Limiter
admit_all [] l = l
admit_all ((key, now) ∷ rs) l = admit_all rs (admit key now l).1

admit-settings :
    (key : String) (now : ℕ) (l : Limiter)
    → ((admit key now l).1.limit ≡ l.limit) × ((admit key now l).1.window ≡ l.window)
unfolding admit
admit-settings key now l = ground arith

admit_all-settings :
    (rs : List Request) (l : Limiter)
    → ((admit_all rs l).limit ≡ l.limit) × ((admit_all rs l).window ≡ l.window)
unfolding admit_all
admit_all-settings [] l = (refl, refl)
admit_all-settings ((key, now) ∷ rs) l =
    ground (arith, admit-settings key now l, admit_all-settings rs (admit key now l).1)

allowed_count-append :
    (k : String) (rs rs' : List Request) (l : Limiter)
    → allowed_count k (rs ++ rs') l ≡ allowed_count k rs l + allowed_count k rs' (admit_all rs l)
unfolding allowed_count admit_all
allowed_count-append k [] rs' l = omega arith
allowed_count-append k ((key, now) ∷ rs) rs' l =
    ground (arith, allowed_count-append k rs rs' (admit key now l).1)

-- The window of a key that has begun at a time.
abbrev StartsAt : ℕ → Option (ℕ × ℕ) → Type 0
StartsAt start none = ⊥
StartsAt start (some e) = e.0 ≡ start

-- At this time a key has no window, or its window has passed.
abbrev pub HasNoWindow : ℕ → ℕ → Option (ℕ × ℕ) → Type 0
HasNoWindow now window none = Unit
HasNoWindow now window (some (start, count)) = start + window ≤ now

admit-StartsAt :
    (k key : String) (start now : ℕ) (l : Limiter)
    → StartsAt start (l.entries k)
    → (key ≡ k → now < start + l.window)
    → StartsAt start ((admit key now l).1.entries k)
unfolding admit
admit-StartsAt k key start now l h b = ground arith

open_window :
    (k : String) (now : ℕ) (l : Limiter)
    → HasNoWindow now l.window (l.entries k)
    → 1 ≤ l.limit
    → ((admit k now l).0 ≡ true) × ((admit k now l).1.entries k ≡ some (now, 1))
unfolding admit
open_window k now l h p = ground arith

admit_all-StartsAt :
    (k : String) (start : ℕ) (rs : List Request) (l : Limiter)
    → StartsAt start (l.entries k)
    → AllBefore k (start + l.window) rs
    → StartsAt start ((admit_all rs l).entries k)
unfolding admit_all
admit_all-StartsAt k start [] l h b = h
admit_all-StartsAt k start ((key, now) ∷ rs) l h b =
    admit_all-StartsAt k start rs (admit key now l).1 (admit-StartsAt k key start now l h b.0)
      (rw ((admit-settings key now l).1) b.1)

-- A window that a call of the key opens.
allowed_count-opened :
    (k : String) (now : ℕ) (rs : List Request) (l : Limiter)
    → HasNoWindow now l.window (l.entries k)
    → 1 ≤ l.limit
    → AllBefore k (now + l.window) rs
    → allowed_count k ((k, now) ∷ rs) l ≡ min (request_count k ((k, now) ∷ rs)) l.limit
unfolding allowed_count request_count
allowed_count-opened k now rs l h p b =
    let opened = open_window k now l h p in
    let settings = admit-settings k now l in
    ground (
      arith,
      opened,
      settings,
      string_eq,
      allowed_count-begun k now 1 rs (admit k now l).1 opened.1 (rw (settings.0) p)
          (rw (settings.1) b),
    )

HasNoWindow-passed :
    (start later window : ℕ) (e : Option (ℕ × ℕ))
    → StartsAt start e
    → start + window ≤ later
    → HasNoWindow later window e
HasNoWindow-passed start later window none h p = tt
HasNoWindow-passed start later window (some e) h p = ground arith

-- When the limit is at least 1, and a key has no window or its window has passed: a call of the key
-- opens a window for the key's calls before its end, and the first call of the key at its end or later
-- opens the next. The number of the key's calls that are allowed in the two is, in each, the number of
-- its calls, but `limit` at most, however many calls of other keys come between.
pub allowed_count-windows :
    (k : String) (now later : ℕ) (rs rs' : List Request) (l : Limiter)
    → HasNoWindow now l.window (l.entries k)
    → 1 ≤ l.limit
    → AllBefore k (now + l.window) rs
    → now + l.window ≤ later
    → AllBefore k (later + l.window) rs'
    → allowed_count k (((k, now) ∷ rs) ++ ((k, later) ∷ rs')) l
      ≡ min (request_count k ((k, now) ∷ rs)) l.limit
        + min (request_count k ((k, later) ∷ rs')) l.limit
unfolding admit_all
allowed_count-windows k now later rs rs' l h p b passed b' =
    let first = (k, now) ∷ rs in
    let l' = admit_all first l in
    let settings = admit_all-settings first l in
    let opened = open_window k now l h p in
    let started =
      admit_all-StartsAt k now rs (admit k now l).1 (subst (StartsAt now) (sym opened.1) refl)
        (rw ((admit-settings k now l).1) b) in
    let second =
      allowed_count-opened k later rs' l'
        (HasNoWindow-passed now later l'.window (l'.entries k) started (rw (settings.1) passed))
        (rw (settings.0) p) (rw (settings.1) b') in
    rw (allowed_count-append k first ((k, later) ∷ rs') l, allowed_count-opened k now rs l h p b)
      (ap (λ n. min (request_count k first) l.limit + n)
        (second ∙ ap (min (request_count k ((k, later) ∷ rs'))) settings.0))
