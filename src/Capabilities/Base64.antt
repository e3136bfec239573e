-- ===== src/Capabilities/Base64.antt =====
-- capability_tokens.py: `_encode` and `_decode`, URL-safe base64 without padding. Decoding is strict,
-- and reads `+` and `/` as well as `-` and `_`.
use cultureshift.Base.{
  ℕ, zero, suc, ◌+◌, ◌-◌, ◌*◌, ◌/◌, ◌%◌, ◌&&◌, ◌||◌, List, [], ◌∷◌, ◌++◌, Option, none, some, ◌==◌,
  nat_eq, ltb, length, is_upper, is_lower, is_digit, is_empty, if◌then◌else◌,
}

-- The character of six bits.
unfoldable pub letter : ℕ → ℕ
letter n =
    if ltb n 26
    then n + b'A'
    else if ltb n 52
    then n - 26 + b'a'
    else if ltb n 62
    then n - 52 + b'0'
    else if n == 62
    then b'-'
    else b'_'

-- The six bits of a character.
unfoldable pub digit : ℕ → Option ℕ
digit c =
    if is_upper c
    then some (c - b'A')
    else if is_lower c
    then some (c - b'a' + 26)
    else if is_digit c
    then some (c - b'0' + 52)
    else if c == b'-' || c == b'+'
    then some 62
    else if c == b'_' || c == b'/'
    then some 63
    else none

-- `_encode`
unfoldable pub encode : List ℕ → List ℕ
encode [] = []
encode (a ∷ []) = letter (a / 4) ∷ letter (a % 4 * 16) ∷ []
encode (a ∷ b ∷ []) = letter (a / 4) ∷ letter (a % 4 * 16 + b / 16) ∷ letter (b % 16 * 4) ∷ []
encode (a ∷ b ∷ c ∷ rest) =
    letter (a / 4)
    ∷ letter (a % 4 * 16 + b / 16)
    ∷ letter (b % 16 * 4 + c / 64)
    ∷ letter (c % 64)
    ∷ encode rest

abbrev pub first_byte : ℕ → ℕ → ℕ
first_byte p q = p * 4 + q / 16

abbrev pub second_byte : ℕ → ℕ → ℕ
second_byte q r = q % 16 * 16 + r / 4

abbrev pub third_byte : ℕ → ℕ → ℕ
third_byte r s = r % 4 * 64 + s

-- Four characters without padding, before the bytes that follow.
abbrev pub whole_group :
    Option ℕ → Option ℕ → Option ℕ → Option ℕ → Option (List ℕ) → Option (List ℕ)
whole_group (some p) (some q) (some r) (some s) (some rest) =
    some (first_byte p q ∷ second_byte q r ∷ third_byte r s ∷ rest)
whole_group _ _ _ _ _ = none

abbrev pub two_bytes : Option ℕ → Option ℕ → Option ℕ → Option (List ℕ)
two_bytes (some p) (some q) (some r) = some (first_byte p q ∷ second_byte q r ∷ [])
two_bytes _ _ _ = none

abbrev pub one_byte : Option ℕ → Option ℕ → Option (List ℕ)
one_byte (some p) (some q) = some (first_byte p q ∷ [])
one_byte _ _ = none

-- `binascii.a2b_base64` in strict mode: padding stands at the end only.
unfoldable pub decode_groups : List ℕ → Option (List ℕ)
decode_groups [] = some []
decode_groups (a ∷ b ∷ c ∷ d ∷ rest) =
    let others = decode_groups rest in
    if d == b'=' && is_empty rest
    then (if c == b'='
        then one_byte (digit a) (digit b)
        else two_bytes (digit a) (digit b) (digit c))
    else whole_group (digit a) (digit b) (digit c) (digit d) others
decode_groups _ = none

-- `"=" * (-len(value) % 4)`
abbrev pub padding_for : ℕ → List ℕ
padding_for zero = []
padding_for (suc zero) = b'=' ∷ b'=' ∷ b'=' ∷ []
padding_for (suc (suc zero)) = b'=' ∷ b'=' ∷ []
padding_for _ = b'=' ∷ []

abbrev pub padding : ℕ → List ℕ
padding n = padding_for (n % 4)

-- `_decode`; `none` is a `ValueError`.
unfoldable pub decode : List ℕ → Option (List ℕ)
decode value = decode_groups (value ++ padding (length value))
