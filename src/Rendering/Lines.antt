-- ===== src/Rendering/Lines.antt =====
-- The lines of a text fit, and have its characters.
use mathlib.Core.Path.{subst}
use mathlib.Core.List.{append_assoc}
use cultureshift.Base.{
  ℕ, ◌+◌, ◌≤◌, Bool, true, false, not, ◌&&◌, ◌||◌, List, [], ◌∷◌, ◌++◌, Option, none, some, ◌≡◌,
  refl, arith, nat_eq, ◌==◌, leb, length, is_empty, all, if◌then◌else◌,
}
use cultureshift.Rendering.{
  is_space, join_words, normalize, TextUnit, emit, scan, text_units, line_then, candidate_for,
  wrap_units, wrap_text,
}

-- The characters of a text that are not white space.
abbrev pub visible : List ℕ → List ℕ
visible [] = []
visible (c ∷ cs) = let rest = visible cs in if is_space c then rest else c ∷ rest

visible-append : (xs ys : List ℕ) → visible (xs ++ ys) ≡ visible xs ++ visible ys
visible-append [] ys = refl
visible-append (x ∷ xs) ys = ground (arith, visible-append xs ys)

abbrev pub joined : List (List ℕ) → List ℕ
joined [] = []
joined (l ∷ ls) = l ++ joined ls

abbrev unit_text : List TextUnit → List ℕ
unit_text [] = []
unit_text (u ∷ us) = u.text ++ unit_text us

space-is_space : is_space b' ' ≡ true
unfolding is_space
space-is_space = refl

visible-space : (cs : List ℕ) → visible (b' ' ∷ cs) ≡ visible cs
visible-space cs = rw (space-is_space) refl

normalize-visible :
    (begun gap : Bool) (text : List ℕ) → visible (join_words begun gap text) ≡ visible text
unfolding join_words
normalize-visible begun gap [] = refl
normalize-visible begun gap (c ∷ cs) =
    ground
      (arith, normalize-visible begun begun cs, normalize-visible true false cs, space-is_space)

emit-visible :
    (word : List ℕ) (separated : Bool) (us : List TextUnit)
    → visible (unit_text (emit word separated us)) ≡ visible word ++ visible (unit_text us)
emit-visible [] separated us = refl
emit-visible (c ∷ cs) separated us = visible-append (c ∷ cs) (unit_text us)

visible-insert :
    (word : List ℕ) (c : ℕ) (cs : List ℕ)
    → visible ((word ++ (c ∷ [])) ++ cs) ≡ visible (word ++ (c ∷ cs))
visible-insert [] c cs = refl
visible-insert (w ∷ word) c cs = ground (arith, visible-insert word c cs)

space-visible : (c : ℕ) (cs : List ℕ) → (c == b' ') ≡ true → visible (c ∷ cs) ≡ visible cs
unfolding nat_eq
space-visible c cs h = ground (arith, space-is_space)

scan-visible :
    (word : List ℕ) (separated : Bool) (text : List ℕ)
    → visible (unit_text (scan word separated text)) ≡ visible (word ++ text)
unfolding scan
scan-visible word separated [] =
    ground (arith, emit-visible word separated [], visible-append word [])
scan-visible word separated (c ∷ cs) =
    let after =
      record { text = c ∷ []; separated = is_empty word && separated } ∷ scan [] false cs in
    ground (
      arith,
      visible-append word (c ∷ cs),
      visible-insert word c cs,
      space-visible c cs,
      emit-visible word separated (scan [] true cs),
      emit-visible word separated after,
      scan-visible [] true cs,
      scan-visible [] false cs,
      scan-visible (word ++ (c ∷ [])) separated cs,
    )

candidate-visible :
    (current : List ℕ) (unit : TextUnit)
    → visible (candidate_for current unit) ≡ visible current ++ visible unit.text
candidate-visible current unit = ground (
  arith,
  visible-append current unit.text,
  visible-append current (b' ' ∷ unit.text),
  visible-space unit.text,
)

candidate-rest :
    (current : List ℕ) (unit : TextUnit) (rest : List ℕ)
    → visible (candidate_for current unit) ++ rest ≡ visible current ++ (visible unit.text ++ rest)
candidate-rest current unit rest =
    rw (candidate-visible current unit) (append_assoc (visible current) (visible unit.text) rest)

module _ (fits : List ℕ → Bool) (maximum_lines : ℕ) where
  -- Lines that fit, with these characters, if there are lines.
  abbrev IsBroken : List ℕ → Option (List (List ℕ)) → Type 0
  IsBroken expected none = Unit
  IsBroken expected (some lines) = (all fits lines ≡ true) × (visible (joined lines) ≡ expected)

  line_then-IsBroken :
      (line rest : List ℕ) (lines : Option (List (List ℕ)))
      → fits line ≡ true
      → IsBroken rest lines
      → IsBroken (visible line ++ rest) (line_then line lines)
  line_then-IsBroken line rest none h k = tt
  line_then-IsBroken line rest (some lines) h k =
      ground (arith, k, visible-append line (joined lines))

  branch :
      (expected : List ℕ) (a b c : Bool) (longer broken : Option (List (List ℕ)))
      → (a ≡ true → IsBroken expected longer)
      → (b ≡ false → IsBroken expected broken)
      → IsBroken expected (if a then longer else if b then none else if c then none else broken)
  branch expected true b c longer broken f g = f refl
  branch expected false true c longer broken f g = tt
  branch expected false false true longer broken f g = tt
  branch expected false false false longer broken f g = g refl

  wrap_units-IsBroken :
      (n : ℕ) (current : List ℕ) (units : List TextUnit)
      → (is_empty current || fits current) ≡ true
      → IsBroken
          (visible current ++ visible (unit_text units))
          (wrap_units fits maximum_lines n current units)
  unfolding wrap_units
  wrap_units-IsBroken n [] [] h = (refl, refl)
  wrap_units-IsBroken n (c ∷ cs) [] h = ground (arith, visible-append (c ∷ cs) [])
  wrap_units-IsBroken n current (unit ∷ units) h = rw (visible-append unit.text (unit_text units)) (
      branch (visible current ++ (visible unit.text ++ visible (unit_text units)))
        (fits (candidate_for current unit)) (is_empty current || not (fits unit.text))
        (leb maximum_lines (n + 1))
        (wrap_units fits maximum_lines n (candidate_for current unit) units)
        (line_then current (wrap_units fits maximum_lines (n + 1) unit.text units))
        (λ a.
          subst
            (λ e. IsBroken e (wrap_units fits maximum_lines n (candidate_for current unit) units))
            (candidate-rest current unit (visible (unit_text units)))
            (wrap_units-IsBroken n (candidate_for current unit) units (ground arith)))
        (λ b.
          line_then-IsBroken current (visible unit.text ++ visible (unit_text units))
            (wrap_units fits maximum_lines (n + 1) unit.text units) (ground arith)
            (wrap_units-IsBroken (n + 1) unit.text units (ground arith))))

  -- When a text is wrapped, each line fits, there is at least one line and at most as many as are allowed,
  -- and the lines have the characters of the text, in their order, but for white space.
  pub wrap_text-lines :
      (text : List ℕ) (lines : List (List ℕ))
      → wrap_text fits maximum_lines text ≡ some lines
      → (all fits lines ≡ true)
        × (is_empty lines ≡ false)
        × (length lines ≤ maximum_lines)
        × (visible (joined lines) ≡ visible text)
  unfolding wrap_text text_units
  wrap_text-lines text lines h = ground (
    arith,
    wrap_units-IsBroken 0 [] (scan [] false (normalize text)) refl,
    scan-visible [] false (normalize text),
    normalize-visible false false text,
  )
