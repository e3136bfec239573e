-- ===== src/Tests/Rendering.antt =====
-- A text that is broken into lines, and the theorem at it.
use cultureshift.Base.{
  ℕ, ◌≤◌, Bool, true, false, List, [], ◌∷◌, some, ◌≡◌, refl, nat_eq, leb, length, is_empty, all,
}
use cultureshift.Rendering.{is_space, is_cjk, join_words, scan, text_units, wrap_units, wrap_text}
use cultureshift.Rendering.Lines.{visible, joined, wrap_text-lines}

-- Lines of at most four characters.
abbrev narrow : List ℕ → Bool
narrow line = leb (length line) 4

-- Words between white space, and two Chinese characters.
abbrev slogan : List ℕ
slogan = 32 ∷ 97 ∷ 98 ∷ 32 ∷ 32 ∷ 99 ∷ 10 ∷ 100 ∷ 101 ∷ 20013 ∷ 25991 ∷ []

abbrev slogan_lines : List (List ℕ)
slogan_lines = (97 ∷ 98 ∷ 32 ∷ 99 ∷ []) ∷ (100 ∷ 101 ∷ 20013 ∷ 25991 ∷ []) ∷ []

wrapped : wrap_text narrow 3 slogan ≡ some slogan_lines
unfolding wrap_text text_units join_words scan wrap_units is_space is_cjk nat_eq
wrapped = refl

wrap_text-lines_example :
    (all narrow slogan_lines ≡ true)
    × (is_empty slogan_lines ≡ false)
    × (length slogan_lines ≤ 3)
    × (visible (joined slogan_lines) ≡ visible slogan)
wrap_text-lines_example = wrap_text-lines narrow 3 slogan slogan_lines wrapped
