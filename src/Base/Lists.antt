-- ===== src/Base/Lists.antt =====
-- Python's tuples and sets of values: length, membership, `set`, `dict.fromkeys`, `any`, `all`.
use Prim.Native.Nat.{ℕ, suc, ◌+◌, ◌≤◌}
use mathlib.Core.Path.{◌≡◌, refl, ap}
use mathlib.Core.Logic.{◌↔◌}
use mathlib.Core.Bool.{Bool, true, false, ◌&&◌, ◌||◌, not}
use mathlib.Core.List.{List, [], ◌∷◌, ◌++◌}
use native.Mathlib.Omega.{arith}
use cultureshift.Base.Equality.{Eq, ◌==◌, ==_iff, nat_eq, if◌then◌else◌}

module _ {ℓ} {A : Type ℓ} where
  abbrev pub length : List A → ℕ
  length [] = 0
  length (x ∷ xs) = suc (length xs)

  abbrev pub any : (A → Bool) → List A → Bool
  any p [] = false
  any p (x ∷ xs) = p x || any p xs

  abbrev pub all : (A → Bool) → List A → Bool
  all p [] = true
  all p (x ∷ xs) = p x && all p xs

  abbrev pub is_empty : List A → Bool
  is_empty [] = true
  is_empty (x ∷ xs) = false

  pub length-append : (xs ys : List A) → length (xs ++ ys) ≡ length xs + length ys
  length-append [] ys = omega arith
  length-append (x ∷ xs) ys = omega (arith, length-append xs ys)

  pub any-append : (p : A → Bool) (xs ys : List A) → any p (xs ++ ys) ≡ (any p xs || any p ys)
  any-append p [] ys = refl
  any-append p (x ∷ xs) ys = ground (arith, any-append p xs ys)

module _ {ℓ} {A : Type ℓ} ⦃e : Eq A⦄ where
  -- `a in xs`
  abbrev pub contains : List A → A → Bool
  contains [] a = false
  contains (x ∷ xs) a = x == a || contains xs a

  -- `set(xs) <= set(ys)`
  abbrev pub is_subset : List A → List A → Bool
  is_subset [] ys = true
  is_subset (x ∷ xs) ys = contains ys x && is_subset xs ys

  -- The keys of `dict.fromkeys` that are not among those seen: each value once, at its first place.
  abbrev pub fresh : List A → List A → List A
  fresh seen [] = []
  fresh seen (x ∷ xs) =
      let rest = fresh seen xs in
      let rest' = fresh (x ∷ seen) xs in if contains seen x then rest else x ∷ rest'

  abbrev pub from_keys : List A → List A
  from_keys xs = fresh [] xs

  -- `len(set(xs)) == len(xs)`
  abbrev pub is_unique : List A → Bool
  is_unique xs = length (from_keys xs) == length xs

  -- No value stands twice.
  abbrev pub IsUnique : List A → Type 0
  IsUnique [] = Unit
  IsUnique (x ∷ xs) = (contains xs x ≡ false) × IsUnique xs

  pub contains-fresh :
      (seen xs : List A) (a : A)
      → contains (fresh seen xs) a ≡ (contains xs a && not (contains seen a))
  contains-fresh seen [] a = refl
  contains-fresh seen (x ∷ xs) a =
      ground (arith, contains-fresh seen xs a, contains-fresh (x ∷ seen) xs a)

  pub contains-from_keys : (xs : List A) (a : A) → contains (from_keys xs) a ≡ contains xs a
  contains-from_keys xs a = ground (arith, contains-fresh [] xs a)

  fresh-IsUnique : (seen xs : List A) → IsUnique (fresh seen xs)
  fresh-IsUnique seen [] = tt
  fresh-IsUnique seen (x ∷ xs) =
      ground (
        arith,
        fresh-IsUnique seen xs,
        fresh-IsUnique (x ∷ seen) xs,
        contains-fresh (x ∷ seen) xs x,
      )

  pub from_keys-IsUnique : (xs : List A) → IsUnique (from_keys xs)
  from_keys-IsUnique xs = fresh-IsUnique [] xs

  length-fresh : (seen xs : List A) → length (fresh seen xs) ≤ length xs
  length-fresh seen [] = omega arith
  length-fresh seen (x ∷ xs) = ground (arith, length-fresh seen xs, length-fresh (x ∷ seen) xs)

  pub length-from_keys : (xs : List A) → length (from_keys xs) ≤ length xs
  length-from_keys xs = length-fresh [] xs

  -- None of `xs` is among those seen.
  abbrev Disjoint : List A → List A → Type 0
  Disjoint seen [] = Unit
  Disjoint seen (x ∷ xs) = (contains seen x ≡ false) × Disjoint seen xs

  Disjoint-cons :
      (y : A) (seen xs : List A) → Disjoint seen xs → contains xs y ≡ false → Disjoint (y ∷ seen) xs
  Disjoint-cons y seen [] d c = tt
  Disjoint-cons y seen (x ∷ xs) d c = ground (arith, Disjoint-cons y seen xs d.1)

  Disjoint-tail : (y : A) (seen xs : List A) → Disjoint (y ∷ seen) xs → contains xs y ≡ false
  Disjoint-tail y seen [] d = refl
  Disjoint-tail y seen (x ∷ xs) d = ground (arith, Disjoint-tail y seen xs d.1)

  Disjoint-drop : (y : A) (seen xs : List A) → Disjoint (y ∷ seen) xs → Disjoint seen xs
  Disjoint-drop y seen [] d = tt
  Disjoint-drop y seen (x ∷ xs) d = ground (arith, Disjoint-drop y seen xs d.1)

  fresh-of_unique : (seen xs : List A) → Disjoint seen xs → IsUnique xs → fresh seen xs ≡ xs
  fresh-of_unique seen [] d u = refl
  fresh-of_unique seen (x ∷ xs) d u =
      ground (arith, fresh-of_unique (x ∷ seen) xs (Disjoint-cons x seen xs d.1 u.0))

  IsUnique-of_fresh :
      (seen xs : List A) → length (fresh seen xs) ≡ length xs → Disjoint seen xs × IsUnique xs
  IsUnique-of_fresh seen [] h = (tt, tt)
  IsUnique-of_fresh seen (x ∷ xs) h = ground (
    arith,
    length-fresh seen xs,
    IsUnique-of_fresh (x ∷ seen) xs,
    Disjoint-tail x seen xs,
    Disjoint-drop x seen xs,
  )

  Disjoint-nil : (xs : List A) → Disjoint [] xs
  Disjoint-nil [] = tt
  Disjoint-nil (x ∷ xs) = (refl, Disjoint-nil xs)

  pub is_unique_iff : (xs : List A) → (is_unique xs ≡ true) ↔ IsUnique xs
  is_unique_iff xs = (
    λ h. (IsUnique-of_fresh [] xs ((==_iff _ _).0 h)).1,
    λ u. (==_iff _ _).1 (ap length (fresh-of_unique [] xs (Disjoint-nil xs) u)),
  )

  pub from_keys-of_unique : (xs : List A) → IsUnique xs → from_keys xs ≡ xs
  from_keys-of_unique xs u = fresh-of_unique [] xs (Disjoint-nil xs) u
