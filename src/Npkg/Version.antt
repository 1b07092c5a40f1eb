-- ===== src/Npkg/Version.antt =====
-- Versions and the ranges that a dependency asks for (src/pkg/nprt-pkg/resolver.c: `SemVer`,
-- `parse_semver`, `cmp_semver`, `semver_satisfies`, `semver_compare_str`), with what they use of
-- `sscanf` and `strcmp`. A number too large for `int` is undefined in C; here it has its value.
pub mod Order
pub mod Ranges
use nullprt.Base.{
  zero, suc, [], ◌∷◌, true, false, none, some, inl, inr, refl, ℕ, ◌+◌, ◌*◌, ◌-◌, Bool, not, ◌&&◌,
  ◌||◌, List, ◌==◌, ltb, leb, Bytes, is_digit, if◌then◌else◌, Option,
}
use nullprt.Base.Int.{ℤ, pos, negsuc, neg, eq_int, first_by, is_nonneg}

pub record SemVer : Type 0 where
  pub major : ℤ
  pub minor : ℤ
  pub patch : ℤ

-- `isspace`
abbrev pub is_space : ℕ → Bool
is_space c = c == 32 || (leb 9 c && leb c 13)

abbrev pub skip_space : Bytes → Bytes
skip_space [] = []
skip_space (c ∷ s) = elim (is_space c) [ false ↦ c ∷ s | true ↦ skip_space s ]

-- A number and the bytes after it.
pub record Scanned : Type 0 where
  pub value : ℤ
  pub after : Bytes

-- The digits that follow; `n` stands for those read so far.
unfoldable pub scan_digits : ℕ → Bytes → ℕ × Bytes
scan_digits n [] = (n, [])
scan_digits n (c ∷ s) = elim (is_digit c) [
  | false ↦ (n, c ∷ s)
  | true ↦ scan_digits (n * 10 + (c - 48)) s
]

abbrev pub scan_unsigned : (ℕ → ℤ) → Bytes → Option Scanned
scan_unsigned sign [] = none
scan_unsigned sign (c ∷ s) = elim (is_digit c) [
  | false ↦ none
  | true ↦
      some (record { value = sign (scan_digits 0 (c ∷ s)).0; after = (scan_digits 0 (c ∷ s)).1 })
]

abbrev pub scan_signed : Bytes → Option Scanned
scan_signed [] = none
scan_signed (c ∷ s) =
    if c == 45
    then scan_unsigned (λ n. neg (pos n)) s
    else if c == 43
    then scan_unsigned pos s
    else scan_unsigned pos (c ∷ s)

-- `%d` of `sscanf`
abbrev pub scan_int : Bytes → Option Scanned
scan_int s = scan_signed (skip_space s)

-- The `.` of the format.
abbrev pub scan_dot : Bytes → Option Bytes
scan_dot [] = none
scan_dot (c ∷ s) = if c == 46 then some s else none

infixl 5 ◌>>=◌
abbrev ◌>>=◌ : {A B : Type 0} → Option A → (A → Option B) → Option B
none >>= f = none
some a >>= f = f a

-- `sscanf(s, "%d.%d.%d", ...) == 3`; the bytes that follow play no part.
unfoldable pub parse_semver : Bytes → Option SemVer
parse_semver s = do
  x ← scan_int s
  s1 ← scan_dot x.after
  y ← scan_int s1
  s2 ← scan_dot y.after
  z ← scan_int s2
  some (record { major = x.value; minor = y.value; patch = z.value })

unfoldable pub cmp_semver : SemVer → SemVer → ℤ
cmp_semver a b =
    first_by a.major b.major (first_by a.minor b.minor (first_by a.patch b.patch (pos 0)))

-- Both strings are versions, and the versions pass the test.
abbrev pub both : (SemVer → SemVer → Bool) → Option SemVer → Option SemVer → Bool
both test none a = false
both test (some r) none = false
both test (some r) (some a) = test r a

abbrev pub caret_accepts : SemVer → SemVer → Bool
caret_accepts r a = if not (eq_int a.major r.major) then false else is_nonneg (cmp_semver a r)

abbrev pub tilde_accepts : SemVer → SemVer → Bool
tilde_accepts r a =
    if not (eq_int a.major r.major) || not (eq_int a.minor r.minor)
    then false
    else is_nonneg (cmp_semver a r)

abbrev pub exact_accepts : SemVer → SemVer → Bool
exact_accepts r a = eq_int (cmp_semver a r) (pos 0)

abbrev pub caret : ℕ
caret = 94

abbrev pub tilde : ℕ
tilde = 126

-- Neither pointer is null: the callers pass strings.
unfoldable pub semver_satisfies : Bytes → Bytes → Bool
semver_satisfies [] actual = both exact_accepts (parse_semver []) (parse_semver actual)
semver_satisfies (c ∷ req) actual =
    if c == caret
    then both caret_accepts (parse_semver req) (parse_semver actual)
    else if c == tilde
    then both tilde_accepts (parse_semver req) (parse_semver actual)
    else both exact_accepts (parse_semver (c ∷ req)) (parse_semver actual)

-- The sign of `strcmp`.
abbrev pub strcmp : Bytes → Bytes → ℤ
strcmp [] [] = pos 0
strcmp [] (y ∷ ys) = negsuc 0
strcmp (x ∷ xs) [] = pos 1
strcmp (x ∷ xs) (y ∷ ys) = first_by (pos x) (pos y) (strcmp xs ys)

abbrev pub compare_parsed : Option SemVer → Option SemVer → ℤ → ℤ
compare_parsed none b other = other
compare_parsed (some a) none other = other
compare_parsed (some a) (some b) other = cmp_semver a b

unfoldable pub semver_compare_str : Bytes → Bytes → ℤ
semver_compare_str a b = compare_parsed (parse_semver a) (parse_semver b) (strcmp a b)
