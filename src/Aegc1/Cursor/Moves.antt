-- ===== src/Aegc1/Cursor/Moves.antt =====
-- What every move of `aegc1`'s lexer is made of: calls of `bump` (frontend/lexer.c).
use nullprt.Base.{
  ◌≤◌, ◌<◌, ◌≡◌, ap, refl, Bool, true, false, ◌==◌, [], ◌∷◌, Bytes, length, arith, Bool-cases, inl,
  inr, while, while_keeps, while_inv, while_round,
}
use nullprt.Aegc1.Cursor.{
  bump_at, Lexer, p1, p2, bump, bump_while, is_space, at_blank, in_line_comment, in_block_comment,
  skip_block_comment, skip_blank, skip_ws_comments,
}

-- `b` is reached from `a` by calls of `bump` alone.
pub data Reads (a : Lexer) : Lexer → Type 0 where
  here : Reads a a
  more : {b : Lexer} → Reads a b → Reads a (bump b)

pub Reads-trans : {a b c : Lexer} → Reads a b → Reads b c → Reads a c
Reads-trans r here = r
Reads-trans r (more s) = more (Reads-trans r s)

pub bump_shrinks : (lx : Lexer) → (p1 lx == 0) ≡ false → length (bump lx).rest < length lx.rest
unfolding bump
bump_shrinks lx h = go lx.rest refl
  where
    go : (r : Bytes) → lx.rest ≡ r → length (bump lx).rest < length lx.rest
    go [] e = ground arith
    go (c ∷ r) e = ground arith

pub bump-le : (lx : Lexer) → length (bump lx).rest ≤ length lx.rest
unfolding bump
bump-le lx = go lx.rest refl
  where
    go : (r : Bytes) → lx.rest ≡ r → length (bump lx).rest ≤ length lx.rest
    go [] e = ground arith
    go (c ∷ r) e = ground arith

pub Reads-le : {a b : Lexer} → Reads a b → length b.rest ≤ length a.rest
Reads-le here = omega arith
Reads-le (more {b} r) = omega (arith, bump-le b, Reads-le r)

pub bump_end : (lx : Lexer) → lx.rest ≡ [] → bump lx ≡ lx
unfolding bump
bump_end lx e = ap (λ r. bump_at r lx) e

-- A loop that only bumps, from any state that bumps have reached.
pub bump_while-Reads : (test : Lexer → Bool) (a : Lexer) → Reads a (bump_while test a)
bump_while-Reads test a = while_keeps (Reads a) test bump (λ s r _. more r) _ a here

-- It ends by its test, if the test fails where there is no byte.
pub bump_while_stops :
    (test : Lexer → Bool) (a : Lexer)
    → ((s : Lexer) → test s ≡ true → (p1 s == 0) ≡ false)
    → test (bump_while test a) ≡ false
bump_while_stops test a nonzero =
    (while_inv (λ s. Unit {0}) (λ s. length s.rest) test bump
      (λ s _ t. (tt, bump_shrinks s (nonzero s t))) _ a (omega arith) tt).1

-- If the test holds at first, the loop reads a byte.
bump_while_shrinks :
    (test : Lexer → Bool) (a : Lexer)
    → test a ≡ true
    → (p1 a == 0) ≡ false
    → length (bump_while test a).rest < length a.rest
bump_while_shrinks test a t nonzero =
    let r : Reads (bump a) (while (length a.rest) test bump (bump a)) =
      while_keeps (Reads (bump a)) test bump (λ s r _. more r) _ _ here in
    rw (while_round (length a.rest) test bump a t)
      (omega (arith, Reads-le r, bump_shrinks a nonzero))

skip_block_comment-Reads : (lx : Lexer) → Reads (bump lx) (skip_block_comment lx)
unfolding skip_block_comment
skip_block_comment-Reads lx = elim (Bool-cases (p1 end == 0)) [
  | inl e ↦ rw e read
  | inr e ↦ rw e (more (more read))
]
  where
    end : Lexer
    end = bump_while in_block_comment (bump (bump lx))

    read : Reads (bump lx) end
    read = Reads-trans (more here) (bump_while-Reads in_block_comment (bump (bump lx)))

pub skip_blank-Reads : (lx : Lexer) → Reads lx (skip_blank lx)
unfolding skip_blank
skip_blank-Reads lx = elim (Bool-cases (is_space (p1 lx))) [
  | inl e ↦ rw e (more here)
  | inr e ↦ elim (Bool-cases (p2 lx == b'/')) [
    | inl e' ↦ rw (e, e') (bump_while-Reads in_line_comment lx)
    | inr e' ↦ rw (e, e') (Reads-trans (more here) (skip_block_comment-Reads lx))
  ]
]

pub skip_blank_shrinks :
    (lx : Lexer) → at_blank lx ≡ true → length (skip_blank lx).rest < length lx.rest
unfolding skip_blank
skip_blank_shrinks lx h = elim (Bool-cases (is_space (p1 lx))) [
  | inl e ↦ rw e (bump_shrinks lx (ground arith))
  | inr e ↦ elim (Bool-cases (p2 lx == b'/')) [
    | inl e' ↦ rw (e, e') (bump_while_shrinks in_line_comment lx (ground arith) (ground arith))
    | inr e' ↦
        rw (e, e')
          (omega (arith, Reads-le (skip_block_comment-Reads lx), bump_shrinks lx (ground arith)))
  ]
]

-- The loop over blanks and comments never runs out of its fuel: it ends where neither a blank
-- nor a comment begins, and it only ever reads bytes one after the other.
pub skip_ws_comments_stops :
    (lx : Lexer) → Reads lx (skip_ws_comments lx) × (at_blank (skip_ws_comments lx) ≡ false)
unfolding skip_ws_comments
skip_ws_comments_stops lx =
    while_inv (Reads lx) (λ s. length s.rest) at_blank skip_blank
      (λ s r t. (Reads-trans r (skip_blank-Reads s), skip_blank_shrinks s t)) _ lx (omega arith)
      here
