-- ===== src/Base/Result.antt =====
-- A call that returns a value or raises an exception of one of the program's classes.
use mathlib.Core.Bool.{Bool, true, false}

module _ {ℓ} where
  pub data Result (E : Type ℓ) (A : Type ℓ) : Type ℓ where
    ok : A → Result E A
    err : E → Result E A

-- `if c: raise e`
abbrev pub raise_if : {E : Type 0} → Bool → E → Result E (Unit {0})
raise_if c e = elim c [ true ↦ err e | false ↦ ok tt ]

-- What follows a call that returns; an exception passes on.
abbrev pub ◌>>=◌ : {E A B : Type 0} → Result E A → (A → Result E B) → Result E B
◌>>=◌ r next = elim r [ ok value ↦ next value | err e ↦ err e ]

abbrev pub ◌>>◌ : {E B : Type 0} → Result E (Unit {0}) → Result E B → Result E B
◌>>◌ r next = elim r [ ok _ ↦ next | err e ↦ err e ]

infixl 5 ◌>>=◌ ◌>>◌
