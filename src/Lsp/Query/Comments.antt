-- ===== src/Lsp/Query/Comments.antt =====
-- Which lines `nls_find_references` in src/lsp/nprt-lsp/index.c takes for comments.
use nullprt.Lsp.Query.{line_back, line_is_comment}
use nullprt.Base.{
  zero, suc, true, inl, inr, refl, ◌≢◌, ◌<◌, ltb→lt, ◌==◌, ◌-◌, ltb, ◌⊎◌, test_cases, Bool-cases,
  ◌≤◌, ◌↔◌, ◌+◌, arith, ℕ, Bytes, ◌≡◌,
}
use mathlib.Core.Path.{ap, subst}
use nullprt.Lsp.Text.{byte_at}

-- A line starts at `start` and reaches `idx`.
pub record IsLineStart (t : Bytes) (start idx : ℕ) : Type 0 where
  pub reaches : start ≤ idx
  pub opens : (start ≡ 0) ⊎ (byte_at t (start - 1) ≡ b'\n')
  pub one_line : (i : ℕ) → start ≤ i → i < idx → byte_at t i ≢ b'\n'

-- The line of `idx` starts with `//`.
abbrev pub InComment : Bytes → ℕ → Type 0
InComment t idx =
    (start : ℕ) × IsLineStart t start idx
    × (byte_at t start ≡ b'/')
    × (byte_at t (start + 1) ≡ b'/')

line_back-IsLineStart : (t : Bytes) (idx : ℕ) → IsLineStart t (line_back t idx) idx
unfolding line_back
line_back-IsLineStart t zero = record {
  reaches = omega arith;
  opens = inl refl;
  one_line = λ i l k. absurd (omega arith);
}
line_back-IsLineStart t (suc k) =
    test_cases (λ n. IsLineStart t n (suc k)) (byte_at t k == b'\n') (suc k) (line_back t k)
      (λ e. record {
        reaches = omega arith;
        opens = inr (ground arith);
        one_line = λ i l m. absurd (omega arith);
      })
      (λ e.
        let b = line_back-IsLineStart t k in
        record {
          reaches = omega (arith, b.reaches);
          opens = b.opens;
          one_line = λ i l m. elim (Bool-cases (i == k)) [
            | inl same ↦
                λ n. absurd (ground (arith, n, ap (byte_at t) {x = i} {y = k} (ground arith)))
            | inr other ↦ b.one_line i l (ground arith)
          ];
        })

-- A line has one start.
IsLineStart-le : (t : Bytes) (a b idx : ℕ) → IsLineStart t a idx → IsLineStart t b idx → b ≤ a
IsLineStart-le t a b idx x y = elim y.opens [
  | inl z ↦ omega (arith, z)
  | inr n ↦ elim (Bool-cases (ltb a b)) [
    | inr e ↦ ground arith
    | inl e ↦
        let l = ltb→lt a b e in
        absurd (x.one_line (b - 1) (omega arith) (omega (arith, y.reaches)) n)
  ]
]

pub line_is_comment_iff : (t : Bytes) (idx : ℕ) → (line_is_comment t idx ≡ true) ↔ InComment t idx
unfolding line_is_comment
line_is_comment_iff t idx = (
  λ h. (line_back t idx, line_back-IsLineStart t idx, ground arith, ground arith),
  λ (start, s, a, b).
      let own = line_back-IsLineStart t idx in
      let low = IsLineStart-le t start (line_back t idx) idx s own in
      let high = IsLineStart-le t (line_back t idx) start idx own s in
      let same : start ≡ line_back t idx = omega (arith, low, high) in
      let first : byte_at t (line_back t idx) ≡ b'/' = subst (λ n. byte_at t n ≡ b'/') same a in
      let second : byte_at t (line_back t idx + 1) ≡ b'/' =
        subst (λ n. byte_at t (n + 1) ≡ b'/') same b in
      rw (first, second) refl,
)
