-- ===== src/Capabilities/Trips.antt =====
-- Base64 text: its characters, and that decoding gives back the bytes.
use cultureshift.Base.{
  ℕ, suc, ◌+◌, ◌*◌, ◌/◌, ◌%◌, ◌<◌, Bool, true, false, ◌&&◌, List, [], ◌∷◌, ◌++◌, some, ◌==◌,
  ==-refl, nat_eq, ltb, length, all, ◌≡◌, refl, ap, arith, if◌then◌else◌,
}
use cultureshift.Capabilities.Base64.{
  letter, digit, encode, decode, decode_groups, padding, padding_for, whole_group, one_byte,
  two_bytes, first_byte, second_byte, third_byte,
}

abbrev pub are_bytes : List ℕ → Bool
are_bytes bs = all (λ b. ltb b 256) bs

digit-letter : (n : ℕ) → n < 64 → digit (letter n) ≡ some n
unfolding digit letter
digit-letter n h = ground arith

-- A character of base64 is neither the padding nor a full stop, and is ASCII.
abbrev pub is_plain : ℕ → Bool
is_plain c = ltb c 128 && (if c == b'=' then false else true) && (if c == b'.' then false else true)

letter-is_plain : (n : ℕ) → is_plain (letter n) ≡ true
unfolding letter
letter-is_plain n = ground arith

pub encode-is_plain : (bs : List ℕ) → all is_plain (encode bs) ≡ true
unfolding encode
encode-is_plain [] = refl
encode-is_plain (a ∷ []) = rw (letter-is_plain (a / 4), letter-is_plain (a % 4 * 16))
encode-is_plain (a ∷ b ∷ []) =
    rw
      (letter-is_plain (a / 4), letter-is_plain (a % 4 * 16 + b / 16), letter-is_plain (b % 16 * 4))
encode-is_plain (a ∷ b ∷ c ∷ rest) =
    rw
      (
        letter-is_plain (a / 4),
        letter-is_plain (a % 4 * 16 + b / 16),
        letter-is_plain (b % 16 * 4 + c / 64),
        letter-is_plain (c % 64),
      )
      (encode-is_plain rest)

letter-ne-pad : (n : ℕ) → (letter n == b'=') ≡ false
letter-ne-pad n = ground (arith, letter-is_plain n)

padding_period : (n : ℕ) → padding (suc (suc (suc (suc n)))) ≡ padding n
padding_period n = ap padding_for (omega arith)

first_byte_lem : (a b : ℕ) → b < 256 → first_byte (a / 4) (a % 4 * 16 + b / 16) ≡ a
first_byte_lem a b h = omega arith

second_byte_lem :
    (a b c : ℕ) → b < 256 → c < 256 → second_byte (a % 4 * 16 + b / 16) (b % 16 * 4 + c / 64) ≡ b
second_byte_lem a b c h k = omega arith

third_byte_lem : (b c : ℕ) → c < 256 → third_byte (b % 16 * 4 + c / 64) (c % 64) ≡ c
third_byte_lem b c h = omega arith

module _ (a : ℕ) where
  one_byte-letters :
      a < 256 → one_byte (digit (letter (a / 4))) (digit (letter (a % 4 * 16))) ≡ some (a ∷ [])
  one_byte-letters h =
      rw (digit-letter (a / 4) (omega arith), digit-letter (a % 4 * 16) (omega arith))
        (ap (λ n. some (n ∷ [])) (omega arith))

  two_bytes-letters :
      (b : ℕ)
      → a < 256
      → b < 256
      → two_bytes
          (digit (letter (a / 4)))
          (digit (letter (a % 4 * 16 + b / 16)))
          (digit (letter (b % 16 * 4)))
        ≡ some (a ∷ b ∷ [])
  two_bytes-letters b h k =
      rw
        (
          digit-letter (a / 4) (omega arith),
          digit-letter (a % 4 * 16 + b / 16) (omega arith),
          digit-letter (b % 16 * 4) (omega arith),
        )
        (ground arith)

  whole_group-letters :
      (b c : ℕ) (rest : List ℕ)
      → a < 256
      → b < 256
      → c < 256
      → whole_group
          (digit (letter (a / 4)))
          (digit (letter (a % 4 * 16 + b / 16)))
          (digit (letter (b % 16 * 4 + c / 64)))
          (digit (letter (c % 64)))
          (some rest)
        ≡ some (a ∷ b ∷ c ∷ rest)
  whole_group-letters b c rest h k l =
      rw
        (
          digit-letter (a / 4) (omega arith),
          digit-letter (a % 4 * 16 + b / 16) (omega arith),
          digit-letter (b % 16 * 4 + c / 64) (omega arith),
          digit-letter (c % 64) (omega arith),
          first_byte_lem a b k,
          second_byte_lem a b c k l,
          third_byte_lem b c l,
        )
        refl

pad_refl : ◌==◌ {A = ℕ} b'=' b'=' ≡ true
pad_refl = ==-refl {A = ℕ} b'='

decode_groups-encode :
    (bs : List ℕ)
    → are_bytes bs ≡ true
    → decode_groups (encode bs ++ padding (length (encode bs))) ≡ some bs
unfolding encode decode_groups
decode_groups-encode [] h = refl
decode_groups-encode (a ∷ []) h = rw (pad_refl) (one_byte-letters a (ground arith))
decode_groups-encode (a ∷ b ∷ []) h =
    rw (pad_refl, letter-ne-pad (b % 16 * 4)) (two_bytes-letters a b (ground arith) (ground arith))
decode_groups-encode (a ∷ b ∷ c ∷ rest) h =
    rw
      (
        letter-ne-pad (c % 64),
        padding_period (length (encode rest)),
        decode_groups-encode rest (ground arith),
      )
      (whole_group-letters a b c rest (ground arith) (ground arith) (ground arith))

-- `_decode(_encode(data)) == data`.
pub decode-encode : (bs : List ℕ) → are_bytes bs ≡ true → decode (encode bs) ≡ some bs
unfolding decode
decode-encode bs h = decode_groups-encode bs h
