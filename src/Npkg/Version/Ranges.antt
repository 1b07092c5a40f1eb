-- ===== src/Npkg/Version/Ranges.antt =====
-- The ranges of `semver_satisfies` (src/pkg/nprt-pkg/resolver.c).
use nullprt.Base.{
  sym, zero, suc, ◌∷◌, true, false, none, some, refl, ◌∙◌, ◌||◌, arith, not, ap, ◌↔◌, if◌then◌else◌,
  Option, ◌≡◌, ◌==◌, Bool, Bytes, ℕ,
}
use nullprt.Npkg.Version.{
  semver_satisfies, tilde, both, cmp_semver, caret_accepts, caret, tilde_accepts, parse_semver,
  exact_accepts, SemVer,
}
use nullprt.Base.Int.{negsuc, pos, neg, is_nonpos, is_nonneg, eq_int, ℤ}
use nullprt.Npkg.Version.Order.{cmp_semver-neg, cmp_semver-zero, cmp_semver_self, cmp_semver_trans}

eq_int_iff : (x y : ℤ) → (eq_int x y ≡ true) ↔ (x ≡ y)
eq_int_iff (pos a) (pos b) = ground arith
eq_int_iff (pos a) (negsuc b) = ground arith
eq_int_iff (negsuc a) (pos b) = ground arith
eq_int_iff (negsuc a) (negsuc b) = ground arith

is_nonneg-neg : (x : ℤ) → is_nonneg (neg x) ≡ is_nonpos x
is_nonneg-neg (pos zero) = refl
is_nonneg-neg (pos (suc n)) = ground arith
is_nonneg-neg (negsuc n) = refl

is_nonneg-cmp_semver : (a r : SemVer) → is_nonneg (cmp_semver a r) ≡ is_nonpos (cmp_semver r a)
is_nonneg-cmp_semver a r = ap is_nonneg (cmp_semver-neg r a) ∙ is_nonneg-neg (cmp_semver r a)

tilde_accepts_self : (a : SemVer) → tilde_accepts a a ≡ true
tilde_accepts_self a =
    by_parts (eq_int a.major a.major) (eq_int a.minor a.minor) ((eq_int_iff a.major a.major).1 refl)
      ((eq_int_iff a.minor a.minor).1 refl)
  where
    by_parts :
        (m n : Bool)
        → m ≡ true
        → n ≡ true
        → (if not m || not n then false else is_nonneg (cmp_semver a a)) ≡ true
    by_parts m n p q = ground (arith, cmp_semver_self a)

exact_accepts_tilde : (r a : SemVer) → exact_accepts r a ≡ true → tilde_accepts r a ≡ true
exact_accepts_tilde r a h =
    let same = cmp_semver-zero a r ((eq_int_iff (cmp_semver a r) (pos 0)).0 h) in
    ap (λ x. tilde_accepts r x) same ∙ tilde_accepts_self r

tilde_accepts_caret : (r a : SemVer) → tilde_accepts r a ≡ true → caret_accepts r a ≡ true
tilde_accepts_caret r a h =
    by_parts (eq_int a.major r.major) (eq_int a.minor r.minor) (is_nonneg (cmp_semver a r)) h
  where
    by_parts :
        (m n c : Bool)
        → (if not m || not n then false else c) ≡ true
        → (if not m then false else c) ≡ true
    by_parts m n c k = ground arith

both-weaken :
    (p q : SemVer → SemVer → Bool) (x y : Option SemVer)
    → ((r a : SemVer) → p r a ≡ true → q r a ≡ true)
    → both p x y ≡ true
    → both q x y ≡ true
both-weaken p q none y h k = k
both-weaken p q (some r) none h k = k
both-weaken p q (some r) (some a) h k = h r a k

-- For a version that begins with neither `^` nor `~`: what satisfies it also satisfies its `~` range,
-- and what satisfies its `~` range also satisfies its `^` range.
pub semver_satisfies_ranges :
    (c : ℕ) (v actual : Bytes)
    → (c == caret) ≡ false
    → (c == tilde) ≡ false
    → (semver_satisfies (c ∷ v) actual ≡ true → semver_satisfies (tilde ∷ c ∷ v) actual ≡ true)
      × (semver_satisfies (tilde ∷ c ∷ v) actual ≡ true
          → semver_satisfies (caret ∷ c ∷ v) actual ≡ true)
unfolding semver_satisfies
semver_satisfies_ranges c v actual p q =
    let r = parse_semver (c ∷ v) in
    let a = parse_semver actual in
    (
      λ h. both-weaken exact_accepts tilde_accepts r a exact_accepts_tilde (rw p at (rw q at h)),
      both-weaken tilde_accepts caret_accepts r a tilde_accepts_caret,
    )

caret_accepts_up :
    (r a b : SemVer)
    → a.major ≡ b.major
    → is_nonpos (cmp_semver a b) ≡ true
    → caret_accepts r a ≡ true
    → caret_accepts r b ≡ true
caret_accepts_up r a b e le h =
    by_parts (eq_int a.major r.major) (eq_int b.major r.major) (is_nonneg (cmp_semver a r))
      (is_nonneg (cmp_semver b r)) (ap (λ m. eq_int m r.major) e)
      (λ k.
        is_nonneg-cmp_semver b r ∙ cmp_semver_trans r a b (sym (is_nonneg-cmp_semver a r) ∙ k) le)
      h
  where
    by_parts :
        (m n c d : Bool)
        → m ≡ n
        → (c ≡ true → d ≡ true)
        → (if not m then false else c) ≡ true
        → (if not n then false else d) ≡ true
    by_parts m n c d e k h = ground arith

both_up :
    (r : Option SemVer) (a b : SemVer)
    → a.major ≡ b.major
    → is_nonpos (cmp_semver a b) ≡ true
    → both caret_accepts r (some a) ≡ true
    → both caret_accepts r (some b) ≡ true
both_up none a b e le h = h
both_up (some r) a b e le h = caret_accepts_up r a b e le h

-- A `^` range is closed upwards within a major version: what satisfies it, any version of the same
-- major number that is not smaller satisfies, too.
pub semver_satisfies_up :
    (req v w : Bytes) (a b : SemVer)
    → parse_semver v ≡ some a
    → parse_semver w ≡ some b
    → a.major ≡ b.major
    → is_nonpos (cmp_semver a b) ≡ true
    → semver_satisfies (caret ∷ req) v ≡ true
    → semver_satisfies (caret ∷ req) w ≡ true
unfolding semver_satisfies
semver_satisfies_up req v w a b p q e le h =
    let r = parse_semver req in
    ap (both caret_accepts r) q ∙ both_up r a b e le (ap (both caret_accepts r) (sym p) ∙ h)
