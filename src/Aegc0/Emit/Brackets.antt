-- ===== src/Aegc0/Emit/Brackets.antt =====
-- The brackets of the C text that src/seed/aegc0/emit_c.c writes.
use nullprt.Base.{
  any, [], ◌∷◌, false, none, some, refl, arith, ◌∙◌, ◌≢◌, append_assoc, codes, ap, All, ◌≡◌, ◌||◌,
  ◌++◌, if◌then◌else◌, ◌==◌, Bytes, Option, List, Bool, ℕ,
}

-- `(` and `{`
abbrev pub is_opening : ℕ → Bool
is_opening c = c == 40 || c == 123

-- A bracket that closes leaves the brackets around it, and it must fit the innermost one.
abbrev pub close : ℕ → List ℕ → Option (List ℕ)
close k [] = none
close k (o ∷ st) = if o == k then some st else none

abbrev pub step : ℕ → List ℕ → Option (List ℕ)
step c st =
    if c == 41
    then close 40 st
    else if c == 125
    then close 123 st
    else some (if is_opening c then c ∷ st else st)

-- The brackets that are open at the end, the innermost first, or `none` where one closes that is
-- not the innermost.
unfoldable pub brackets : List ℕ → Bytes → Option (List ℕ)
brackets st [] = some st
brackets st (c ∷ s) = elim (step c st) [ none ↦ none | some st' ↦ brackets st' s ]

-- The text turns the open brackets `a` into `b`, whatever is open outside and whatever follows.
pub record Moves (a b : List ℕ) (s : Bytes) : Type 0 where
  pub moves :
      (st : List ℕ) (rest : Bytes) → brackets (a ++ st) (s ++ rest) ≡ brackets (b ++ st) rest

infixr 5 ◌▸◌
pub ◌▸◌ : {a b c : List ℕ} {s t : Bytes} → Moves a b s → Moves b c t → Moves a c (s ++ t)
◌▸◌ {a} {s} {t} h k = record {
  moves = λ st rest.
      ap (brackets (a ++ st)) (append_assoc s t rest) ∙ h.moves st (t ++ rest) ∙ k.moves st rest;
}

-- A text that closes what it opens does so inside any brackets.
pub inside : {s : Bytes} (a : List ℕ) → Moves [] [] s → Moves a a s
inside a h = record { moves = λ st rest. h.moves (a ++ st) rest }

pub nothing : Moves [] [] []
nothing = record { moves = λ st rest. refl }

-- No brackets at all.
abbrev pub Plain : Bytes → Type 0
Plain s = All (λ c. (c ≢ 40) × (c ≢ 41) × (c ≢ 123) × (c ≢ 125)) s

abbrev pub is_bracket : ℕ → Bool
is_bracket c = c == 40 || (c == 41 || (c == 123 || c == 125))

pub Plain-by_test : (s : Bytes) → any is_bracket s ≡ false → Plain s
Plain-by_test [] h = tt
Plain-by_test (c ∷ s) h =
    let here : is_bracket c ≡ false = ground arith in
    ((ground arith, ground arith, ground arith, ground arith), Plain-by_test s (ground arith))

step_plain :
    (c : ℕ) (st : List ℕ) → (c ≢ 40) × (c ≢ 41) × (c ≢ 123) × (c ≢ 125) → step c st ≡ some st
step_plain c st (a, b, d, e) = ground arith

pub plain : (s : Bytes) → Plain s → Moves [] [] s
unfolding brackets
plain [] h = nothing
plain (c ∷ s) (h, k) = record {
  moves = λ st rest.
      ap
        (λ o. elim o as (λ x. Option (List ℕ)) [
          | none ↦ none
          | some st' ↦ brackets st' (s ++ rest)
        ])
        (step_plain c st h)
      ∙ (plain s k).moves st rest;
}

pub open_paren : Moves [] (40 ∷ []) (codes "(")
unfolding brackets
open_paren = record { moves = λ st rest. refl }

pub close_paren : Moves (40 ∷ []) [] (codes ")")
unfolding brackets
close_paren = record { moves = λ st rest. refl }
