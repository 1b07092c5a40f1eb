-- ===== src/Aegc1/Lexer/Positions.antt =====
-- Where `aegc1`'s lexer stands in its source (frontend/lexer.c).
use nullprt.Base.{
  ℕ, zero, suc, ◌+◌, ◌≤◌, ◌<◌, ◌≡◌, refl, sym, ap, ◌∙◌, ◌==◌, if◌then◌else◌, [], ◌∷◌, ◌++◌, Bytes,
  length, take, drop, drop-drop, length-drop, arith,
}
use mathlib.Core.Path.{subst}
use nullprt.Aegc1.Cursor.{Lexer, bump, u32, init}
use nullprt.Aegc1.Cursor.Moves.{skip_ws_comments_stops, Reads-le, Reads, here, more, bump_end}
use nullprt.Aegc1.Token.{StringView}
use nullprt.Aegc1.Lexer.{next, lex_at, lex_string, lex_word, lex_number}
use nullprt.Aegc1.Lexer.Progress.{next-Reads, lex_at_cases}

abbrev pub newlines : Bytes → ℕ
newlines [] = 0
newlines (c ∷ r) = (if c == b'\n' then 1 else 0) + newlines r

-- The state stands at offset `i` of the source, on the line that the newlines before it give.
pub record IsAt (src : Bytes) (lx : Lexer) : Type 0 where
  pub within : lx.i ≤ length src
  pub rest_is : lx.rest ≡ drop lx.i src
  pub line_is : lx.line ≡ u32 (1 + newlines (take lx.i src))

-- One byte more at the end of a prefix.
take-suc :
    (n c : ℕ) (r src : Bytes)
    → drop n src ≡ c ∷ r
    → (n < length src)
      × (drop (n + 1) src ≡ r)
      × (newlines (take (n + 1) src) ≡ newlines (take n src) + newlines (c ∷ []))
take-suc zero c r [] e = cc
take-suc zero c r (x ∷ src) e = ground arith
take-suc (suc n) c r [] e = cc
take-suc (suc n) c r (x ∷ src) e = ground (arith, take-suc n c r src)

bump-IsAt : (src : Bytes) (lx : Lexer) → IsAt src lx → IsAt src (bump lx)
unfolding bump
bump-IsAt src lx h = go lx.rest refl
  where
    go : (r : Bytes) → lx.rest ≡ r → IsAt src (bump lx)
    go [] e = subst (IsAt src) (sym (bump_end lx e)) h
    go (c ∷ r) e = ground (arith, take-suc lx.i c r src)

pub Reads-IsAt : (src : Bytes) {a b : Lexer} → Reads a b → IsAt src a → IsAt src b
Reads-IsAt src here h = h
Reads-IsAt src (more {b} r) h = bump-IsAt src b (Reads-IsAt src r h)

pub init-IsAt : (src : Bytes) → IsAt src (init src)
unfolding init
init-IsAt src = record { within = omega arith; rest_is = refl; line_is = refl }

-- The text is the stretch of the source that the view points at.
abbrev pub IsSlice : Bytes → StringView → Type 0
IsSlice src v = drop v.ptr src ≡ v.bytes ++ drop (v.ptr + length v.bytes) src

take-append-drop : (n : ℕ) (xs : Bytes) → xs ≡ take n xs ++ drop (length (take n xs)) xs
take-append-drop zero xs = refl
take-append-drop (suc n) [] = refl
take-append-drop (suc n) (x ∷ xs) = ap (◌∷◌ x) (take-append-drop n xs)

take-IsSlice :
    (src : Bytes) (n : ℕ) (lx : Lexer)
    → IsAt src lx
    → IsSlice src (record { ptr = lx.i; bytes = take n lx.rest })
take-IsSlice src n lx h =
    let e : drop (length (take n lx.rest)) lx.rest ≡ drop (lx.i + length (take n lx.rest)) src =
      ap (drop (length (take n lx.rest))) h.rest_is ∙ drop-drop lx.i _ src in
    sym h.rest_is ∙ take-append-drop n lx.rest ∙ ap (λ r. take n lx.rest ++ r) e

lex_at-IsSlice : (src : Bytes) (s : Lexer) → IsAt src s → IsSlice src (lex_at s).0.text
unfolding lex_string lex_word lex_number
lex_at-IsSlice src s h =
    lex_at_cases (λ r. IsSlice src r.0.text) s (λ _. take-IsSlice src _ s h)
      (λ _. take-IsSlice src _ s h) (λ _. take-IsSlice src _ s h)
      (take-IsSlice src _ (bump s) (bump-IsAt src s h)) (take-IsSlice src _ s h)
      (take-IsSlice src _ s h)

-- From a state that stands at its offset in the source, on the line that the newlines before it
-- give (modulo 2 ^ 32), a call of the lexer ends in such a state, no earlier in the source, and
-- the token's text is the stretch of the source that its view points at.
pub next-IsAt :
    (src : Bytes) (lx : Lexer)
    → IsAt src lx
    → IsAt src (next lx).1 × (lx.i ≤ (next lx).1.i) × IsSlice src (next lx).0.text
unfolding next
next-IsAt src lx h = (
  at,
  omega (arith, h.within, Reads-le (next-Reads lx), rest_length h, rest_length at),
  lex_at-IsSlice src _ (Reads-IsAt src (skip_ws_comments_stops lx).0 h),
)
  where
    at : IsAt src (next lx).1
    at = Reads-IsAt src (next-Reads lx) h

    rest_length : {s : Lexer} → IsAt src s → length s.rest + s.i ≡ length src
    rest_length {s} k = omega (arith, ap length k.rest_is, length-drop s.i src, k.within)
