-- ===== src/Rendering.antt =====
-- cultureshift/composition.py: how a text is broken into lines. What the font measures is a parameter;
-- texts are lists of code points.
pub mod Lines
use cultureshift.Base.{
  ℕ, ◌+◌, ◌*◌, ◌-◌, ◌/◌, Bool, true, false, not, ◌&&◌, ◌||◌, List, [], ◌∷◌, ◌++◌, Option, none,
  some, nat_eq, ◌==◌, ltb, leb, length, is_empty, contains, max, if◌then◌else◌, zero, suc,
}

-- The characters that `str.split()` and `str.isspace()` take for white space.
unfoldable pub is_space : ℕ → Bool
is_space c =
    (leb 9 c && leb c 13)
    || (leb 28 c && leb c 32)
    || (c == 133)
    || (c == 160)
    || (c == 5760)
    || (leb 8192 c && leb c 8202)
    || (c == 8232)
    || (c == 8233)
    || (c == 8239)
    || (c == 8287)
    || (c == 12288)

-- `_is_cjk`
unfoldable pub is_cjk : ℕ → Bool
is_cjk c =
    (leb 13312 c && leb c 19903) || (leb 19968 c && leb c 40959) || (leb 63744 c && leb c 64255)

-- `" ".join(text.split())`: `open` is whether a word was begun, and `gap` whether a space is due.
unfoldable pub join_words : Bool → Bool → List ℕ → List ℕ
join_words begun gap [] = []
join_words begun gap (c ∷ cs) =
    let skipped = join_words begun begun cs in
    let kept = join_words true false cs in
    if is_space c then skipped else if gap then b' ' ∷ c ∷ kept else c ∷ kept

abbrev pub normalize : List ℕ → List ℕ
normalize text = join_words false false text

-- A word or a Chinese character, and whether a space stands before it.
pub record TextUnit : Type 0 where
  pub text : List ℕ
  pub separated : Bool

abbrev pub emit : List ℕ → Bool → List TextUnit → List TextUnit
emit word separated units =
    if is_empty word then units else record { text = word; separated = separated } ∷ units

-- The loop of `_text_units`, with the word that was begun and whether a space stands before it.
unfoldable pub scan : List ℕ → Bool → List ℕ → List TextUnit
scan word separated [] = emit word separated []
scan word separated (c ∷ cs) =
    let after_space = scan [] true cs in
    let after_character = scan [] false cs in
    let longer = scan (word ++ (c ∷ [])) separated cs in
    if c == b' '
    then emit word separated after_space
    else if is_cjk c
    then emit word separated
        (record { text = c ∷ []; separated = is_empty word && separated } ∷ after_character)
    else longer

-- `_text_units`
unfoldable pub text_units : List ℕ → Option (List TextUnit)
text_units text =
    let normalized = normalize text in
    if is_empty normalized then none else some (scan [] false normalized)

abbrev pub line_then : List ℕ → Option (List (List ℕ)) → Option (List (List ℕ))
line_then line none = none
line_then line (some lines) = some (line ∷ lines)

abbrev pub candidate_for : List ℕ → TextUnit → List ℕ
candidate_for current unit =
    if not (is_empty current) && unit.separated
    then current ++ (b' ' ∷ unit.text)
    else current ++ unit.text

-- `fits` is whether `font.getlength(line) <= maximum_width`.
module _ (fits : List ℕ → Bool) (maximum_lines : ℕ) where
  -- The loop of `_wrap_text`, with the number of lines so far, and what follows it.
  unfoldable pub wrap_units : ℕ → List ℕ → List TextUnit → Option (List (List ℕ))
  wrap_units n current [] = if is_empty current then some [] else some (current ∷ [])
  wrap_units n current (unit ∷ units) =
      let longer = wrap_units n (candidate_for current unit) units in
      let broken = wrap_units (n + 1) unit.text units in
      if fits (candidate_for current unit)
      then longer
      else if is_empty current || not (fits unit.text)
      then none
      else if leb maximum_lines (n + 1)
      then none
      else line_then current broken

  abbrev pub check_lines : Option (List (List ℕ)) → Option (List (List ℕ))
  check_lines none = none
  check_lines (some lines) =
      if is_empty lines || ltb maximum_lines (length lines) then none else some lines

  abbrev pub wrap_all : Option (List TextUnit) → Option (List (List ℕ))
  wrap_all none = none
  wrap_all (some units) = check_lines (wrap_units 0 [] units)

  -- `_wrap_text`, for a width that is positive; `none` is `CompositionError`.
  unfoldable pub wrap_text : List ℕ → Option (List (List ℕ))
  wrap_text text = if maximum_lines == 0 then none else wrap_all (text_units text)
