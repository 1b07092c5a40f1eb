-- ===== src/Aegc0/Parser/Steps.antt =====
-- What the functions of the seed parser do to its state (src/seed/aegc0/parser.c): they read
-- tokens, and an error is never forgotten.
use nullprt.Aegc0.Parser.{
  accept, expect, next, perr, ◌>>=◌, is, kind_is, Token, Outcome, TokenKind, Parser,
}
use nullprt.Aegc0.Token.{kind_value, eof}
use nullprt.Base.{
  [], ◌∷◌, true, false, some, inl, inr, refl, Bool, ◌<◌, if◌then◌else◌, ◌≡◌, ◌+◌, ◌++◌, ◌≤◌, length,
  arith, List, Bool-cases, ℕ,
}
use nullprt.Aegc0.Lexer.Progress.{lexer_next_shrinks}

-- The bytes that are left, and the token at hand.
abbrev pub left : Parser → ℕ
left p = length p.lx.rest + (if kind_is eof p then 0 else 1)

-- The tokens that are read one after the other on the way from `p` to `q`.
pub data Takes (q : Parser) : Parser → List Token → Type 0 where
  done : Takes q q []
  token : {p : Parser} {ts : List Token} → Takes q (next p) ts → Takes q p (p.cur ∷ ts)

pub Takes-append :
    {q r : Parser} {us : List Token} {p : Parser} {ts : List Token}
    → Takes q p ts
    → Takes r q us
    → Takes r p (ts ++ us)
Takes-append done k = k
Takes-append (token h) k = token (Takes-append h k)

pub Takes-one : (p : Parser) → Takes (next p) p (p.cur ∷ [])
Takes-one p = token done

-- From `p` to `q` nothing is put back and no error is forgotten; if there is none at the end, `R`
-- holds of what was read.
pub record Steps (p q : Parser) (R : Type 0) : Type 0 where
  pub le : left q ≤ left p
  pub clean : q.had_error ≡ false → p.had_error ≡ false
  pub sound : q.had_error ≡ false → R

pub next-le : (p : Parser) → left (next p) ≤ left p
unfolding next
next-le p = ground (arith, lexer_next_shrinks p.lx)

pub next_shrinks : (p : Parser) → kind_is eof p ≡ false → left (next p) < left p
unfolding next
next_shrinks p h = ground (arith, lexer_next_shrinks p.lx)

pub next-Steps : (p : Parser) → Steps p (next p) (Unit {0})
unfolding next
next-Steps p = record { le = next-le p; clean = λ h. h; sound = λ h. tt }

-- After an error everything else is beside the point.
pub perr-Steps : (R : Type 0) (p : Parser) → Steps p (perr p) R
unfolding perr
perr-Steps R p = record { le = omega arith; clean = λ h. cc; sound = λ h. cc }

pub perr_next-Steps : (R : Type 0) (p : Parser) → Steps p (next (perr p)) R
unfolding perr next
perr_next-Steps R p = record { le = next-le p; clean = λ h. cc; sound = λ h. cc }

pub Steps-trans :
    {p q r : Parser} {R S T : Type 0} → Steps p q R → Steps q r S → (R → S → T) → Steps p r T
Steps-trans a b f = record {
  le = omega (arith, a.le, b.le);
  clean = λ h. a.clean (b.clean h);
  sound = λ h. f (a.sound (b.clean h)) (b.sound h);
}

pub Steps-map : {p q : Parser} {R S : Type 0} → (R → S) → Steps p q R → Steps p q S
Steps-map f a = record { le = a.le; clean = a.clean; sound = λ h. f (a.sound h) }

pub Steps-refl : {R : Type 0} (p : Parser) → R → Steps p p R
Steps-refl p r = record { le = omega arith; clean = λ h. h; sound = λ h. r }

-- A token of that kind is read, or there is an error.
abbrev pub Reads : TokenKind → Parser → Parser → Type 0
Reads k p q = (t : Token) × (is t.kind k ≡ true) × Takes q p (t ∷ [])

pub next-Reads : (k : TokenKind) (p : Parser) → kind_is k p ≡ true → Reads k p (next p)
next-Reads k p h = (p.cur, h, Takes-one p)

pub expect-Steps : (k : TokenKind) (p : Parser) → Steps p (expect k p) (Reads k p (expect k p))
unfolding expect
expect-Steps k p = elim (Bool-cases (kind_is k p)) [
  | inl e ↦ rw e (Steps-map (λ u. next-Reads k p e) (next-Steps p))
  | inr e ↦ rw e (perr-Steps _ p)
]

-- Both ways of `accept`.
pub accept_cases {κ} :
    {A : Type 0} (P : A → Type κ) (k : TokenKind) (p : Parser) (taken other : Parser → A)
    → (kind_is k p ≡ true → P (taken (next p)))
    → (kind_is k p ≡ false → P (other p))
    → P (accept k p taken other)
unfolding accept
accept_cases P k p taken other h i = by_test (kind_is k p) h i
  where
    by_test :
        (b : Bool)
        → (b ≡ true → P (taken (next p)))
        → (b ≡ false → P (other p))
        → P (elim b [ true ↦ taken (next p) | false ↦ other p ])
    by_test true h i = h refl
    by_test false h i = i refl

-- The fuel did not run out, and `P` holds of the result and the state after it.
pub data Ensures {A : Type 0} (P : A × Parser → Type 0) : Outcome A → Type 0 where
  holds : {r : A × Parser} → P r → Ensures P (some r)

pub Ensures-bind :
    {A B : Type 0} {P : A × Parser → Type 0} {Q : B × Parser → Type 0} {m : Outcome A}
    {f : A × Parser → Outcome B}
    → Ensures P m
    → ((r : A × Parser) → P r → Ensures Q (f r))
    → Ensures Q (m >>= f)
Ensures-bind (holds {r} h) k = k r h

pub Ensures-map :
    {A : Type 0} {P Q : A × Parser → Type 0} {m : Outcome A}
    → Ensures P m
    → ((r : A × Parser) → P r → Q r)
    → Ensures Q m
Ensures-map (holds {r} h) k = holds (k r h)

pub Ensures-run :
    {A : Type 0} {P : A × Parser → Type 0} {m : Outcome A}
    → Ensures P m
    → (r : A × Parser) × (m ≡ some r) × P r
Ensures-run (holds {r} h) = (r, refl, h)

abbrev pub is_eof : TokenKind → Bool
is_eof eof = true
is_eof _ = false

not-eof : (k j : TokenKind) → is_eof k ≡ false → is j k ≡ true → is j eof ≡ false
unfolding kind_value
not-eof eof j h e = cc
not-eof _ j h e = ground arith

-- A token of any kind but `eof` that is accepted leaves less.
pub accepted_shrinks :
    (k : TokenKind) (p : Parser) → is_eof k ≡ false → kind_is k p ≡ true → left (next p) < left p
accepted_shrinks k p h e = next_shrinks p (not-eof k p.cur.kind h e)
