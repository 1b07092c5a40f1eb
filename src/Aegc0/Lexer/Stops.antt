-- ===== src/Aegc0/Lexer/Stops.antt =====
-- Where the seed lexer (src/seed/aegc0/lexer.c) gives the token `eof`.
use nullprt.Aegc0.Lexer.{
  double_kind, kw_kind, lex_at, lex_ident, lex_int, lex_string, punct_kind, single_kind,
  is_ident_start, head_or, Lexer, eof, is,
}
use nullprt.Aegc0.Token.{kind_value}
use nullprt.Base.{
  is_alpha, is_digit, [], ◌∷◌, true, false, inl, inr, refl, ◌==◌, Bool-cases, ◌≤◌, codes, ◌≢◌,
  arith, All, ℕ, Bytes, ◌≡◌,
}
use mathlib.Core.Path.{ap, subst}

-- A byte that is no letter, no digit, and none of the signs that begin a token.
pub record IsStray (c : ℕ) : Type 0 where
  pub punctuation : All (λ d. c ≢ d) (codes "(){}:;,")
  pub operator : All (λ d. c ≢ d) (codes "=+-*/%<>!")
  pub quote : c ≢ b'"'
  pub underscore : c ≢ b'_'
  pub digit : ¬ ((b'0' ≤ c) × (c ≤ b'9'))
  pub small : ¬ ((b'a' ≤ c) × (c ≤ b'z'))
  pub capital : ¬ ((b'A' ≤ c) × (c ≤ b'Z'))

-- The text ends, or a byte stands there that begins no token: `&` and `|` begin one just if they
-- stand twice.
pub data Stop : Bytes → Type 0 where
  at_end : Stop []
  at_nul : {r : Bytes} → Stop (0 ∷ r)
  at_stray :
      {c : ℕ} {r : Bytes}
      → IsStray c
      → ((s : Bytes) → ¬ ((c ≡ b'&') × (r ≡ b'&' ∷ s)))
      → ((s : Bytes) → ¬ ((c ≡ b'|') × (r ≡ b'|' ∷ s)))
      → Stop (c ∷ r)

kw_kind-eof : (s : Bytes) → is (kw_kind s) eof ≡ false
unfolding kw_kind kind_value
kw_kind-eof s = ground arith

punct_kind-eof : (c : ℕ) → is (punct_kind c) eof ≡ true → All (λ d. c ≢ d) (codes "(){}:;,")
unfolding punct_kind kind_value
punct_kind-eof c h =
    ((
      λ e. ground arith,
      (
        λ e. ground arith,
        (
          λ e. ground arith,
          (λ e. ground arith, (λ e. ground arith, (λ e. ground arith, (λ e. ground arith, tt)))),
        ),
      ),
    ))

single_kind-eof : (c : ℕ) → is (single_kind c) eof ≡ true → All (λ d. c ≢ d) (codes "=+-*/%<>!")
unfolding single_kind kind_value
single_kind-eof c h =
    ((
      λ e. ground arith,
      (
        λ e. ground arith,
        (
          λ e. ground arith,
          (
            λ e. ground arith,
            (
              λ e. ground arith,
              (
                λ e. ground arith,
                (λ e. ground arith, (λ e. ground arith, (λ e. ground arith, tt))),
              ),
            ),
          ),
        ),
      ),
    ))

double_kind-eof :
    (c d : ℕ)
    → is (double_kind c d) eof ≡ true
    → ¬ ((c ≡ b'&') × (d ≡ b'&')) × ¬ ((c ≡ b'|') × (d ≡ b'|'))
unfolding double_kind kind_value
double_kind-eof c d h = (λ e. ground (arith, e.0, e.1), λ e. ground (arith, e.0, e.1))

ident_start_no :
    (c : ℕ)
    → is_ident_start c ≡ false
    → (c ≢ b'_') × (¬ ((b'a' ≤ c) × (c ≤ b'z')) × ¬ ((b'A' ≤ c) × (c ≤ b'Z')))
unfolding is_alpha
ident_start_no c h =
    (λ e. ground (arith, e), (λ e. ground (arith, e.0, e.1), λ e. ground (arith, e.0, e.1)))

digit_no : (c : ℕ) → is_digit c ≡ false → ¬ ((b'0' ≤ c) × (c ≤ b'9'))
unfolding is_digit
digit_no c h e = ground (arith, e.0, e.1)

stray-Stop :
    (c : ℕ) (r : Bytes)
    → is (punct_kind c) eof ≡ true
    → is (double_kind c (head_or r)) eof ≡ true
    → is (single_kind c) eof ≡ true
    → (c == b'"') ≡ false
    → is_ident_start c ≡ false
    → is_digit c ≡ false
    → Stop (c ∷ r)
stray-Stop c r p d s q i n =
    let alpha = ident_start_no c i in
    let two = double_kind-eof c (head_or r) d in
    at_stray
      (record {
        punctuation = punct_kind-eof c p;
        operator = single_kind-eof c s;
        quote = λ e. ground (arith, e);
        underscore = alpha.0;
        digit = digit_no c n;
        small = alpha.1.0;
        capital = alpha.1.1;
      })
      (λ t e. two.0 (e.0, ap head_or e.1)) (λ t e. two.1 (e.0, ap head_or e.1))

lex_string-kind : (s : Lexer) → is (lex_string s).0.kind eof ≡ false
unfolding lex_string kind_value
lex_string-kind s = refl

lex_ident-kind : (s : Lexer) → is (lex_ident s).0.kind eof ≡ false
unfolding lex_ident
lex_ident-kind s = kw_kind-eof _

lex_int-kind : (s : Lexer) → is (lex_int s).0.kind eof ≡ false
unfolding lex_int kind_value
lex_int-kind s = refl

eof-Stop :
    (rest : Bytes) (i line col : ℕ)
    → is (lex_at (record { rest = rest; i = i; line = line; col = col })).0.kind eof ≡ true
    → Stop rest
unfolding lex_at kind_value
eof-Stop [] i line col = λ h. at_end
eof-Stop (c ∷ r) i line col = elim (Bool-cases (c == 0)) [
  | inl z ↦ λ h. subst (λ d. Stop (d ∷ r)) (ground arith) at_nul
  | inr z ↦ elim (Bool-cases (is (punct_kind c) eof)) [
    | inr e ↦ rw (z, e) (λ h. absurd cc)
    | inl p ↦ elim (Bool-cases (is (double_kind c (head_or r)) eof)) [
      | inr e ↦ rw (z, p, e) (λ h. absurd cc)
      | inl d ↦ elim (Bool-cases (is (single_kind c) eof)) [
        | inr e ↦ rw (z, p, d, e) (λ h. absurd cc)
        | inl s ↦ elim (Bool-cases (c == b'"')) [
          | inl e ↦ rw (z, p, d, s, e) (λ h. absurd (cc h))
          | inr q ↦ elim (Bool-cases (is_ident_start c)) [
            | inl e ↦
                rw (z, p, d, s, q, e)
                  (λ h. absurd (
                    cc
                      (h, lex_ident-kind (record { rest = c ∷ r; i = i; line = line; col = col }))))
            | inr a ↦ elim (Bool-cases (is_digit c)) [
              | inl e ↦ rw (z, p, d, s, q, a, e) (λ h. absurd (cc h))
              | inr n ↦ λ h. stray-Stop c r p d s q a n
            ]
          ]
        ]
      ]
    ]
  ]
]

-- A token `eof` is read only where the text ends or a byte begins no token.
pub lex_at-Stop : (s : Lexer) → is (lex_at s).0.kind eof ≡ true → Stop s.rest
lex_at-Stop s = eof-Stop s.rest s.i s.line s.col
