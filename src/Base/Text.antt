-- ===== src/Base/Text.antt =====
-- Characters of a text: its code points, their classes, and the tests of `re.fullmatch`.
use Prim.Native.Nat.{ℕ}
use Prim.Native.Char.{code}
use Prim.Native.String.{String}
use mathlib.Core.Bool.{Bool, ◌&&◌}
use mathlib.Core.List.{List, [], ◌∷◌}
use native.Mathlib.Decide.{ℕ_discrete}
use cultureshift.Base.Equality.{Eq, nat_eq, leb}
use cultureshift.Base.Lists.{length}

-- `String` has its own `[]` and `∷`.
abbrev pub codes : String → List ℕ
codes String.[] = []
codes (String.◌∷◌ c s) = code c ∷ codes s

-- `len(text)`
abbrev pub text_length : String → ℕ
text_length s = length (codes s)

-- `[a-z]`, `[0-9]`
abbrev pub is_lower : ℕ → Bool
is_lower c = leb b'a' c && leb c b'z'

abbrev pub is_digit : ℕ → Bool
is_digit c = leb b'0' c && leb c b'9'

abbrev pub is_upper : ℕ → Bool
is_upper c = leb b'A' c && leb c b'Z'

unfoldable pub codes-discrete : Discrete (List ℕ)
codes-discrete = hlevel ℕ_discrete

instance unfoldable pub codes_eq : Eq (List ℕ)
unfolding codes-discrete
codes_eq = record { dec = codes-discrete }
