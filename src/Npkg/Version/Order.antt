-- ===== src/Npkg/Version/Order.antt =====
-- `cmp_semver` (src/pkg/nprt-pkg/resolver.c) puts the versions in a total order.
use nullprt.Npkg.Version.{cmp_semver, SemVer}
use nullprt.Base.{zero, suc, true, refl, ◌∙◌, sym, ◌↔◌, arith, ap, ◌≡◌}
use nullprt.Base.Int.{negsuc, ℤ, pos, neg, is_nonpos, first_by-neg, first_by-zero, first_by_trans}

pub cmp_semver-neg : (a b : SemVer) → cmp_semver b a ≡ neg (cmp_semver a b)
unfolding cmp_semver
cmp_semver-neg a b =
    first_by-neg a.major b.major _ _
      (first_by-neg a.minor b.minor _ _ (first_by-neg a.patch b.patch _ _ refl))

pub cmp_semver_self : (a : SemVer) → cmp_semver a a ≡ pos 0
cmp_semver_self a = self_neg (cmp_semver a a) (cmp_semver-neg a a)
  where
    self_neg : (z : ℤ) → z ≡ neg z → z ≡ pos 0
    self_neg (pos zero) e = refl
    self_neg (pos (suc n)) e = ground arith
    self_neg (negsuc n) e = ground arith

pub cmp_semver-zero : (a b : SemVer) → cmp_semver a b ≡ pos 0 → a ≡ b
unfolding cmp_semver
cmp_semver-zero a b h =
    let x = first_by-zero a.major b.major _ h in
    let y = first_by-zero a.minor b.minor _ x.1 in
    let z = first_by-zero a.patch b.patch _ y.1 in
    ap (λ m. record { major = m; minor = a.minor; patch = a.patch }) x.0
    ∙ ap (λ m. record { major = b.major; minor = m; patch = a.patch }) y.0
    ∙ ap (λ m. record { major = b.major; minor = b.minor; patch = m }) z.0

pub cmp_semver_trans :
    (a b c : SemVer)
    → is_nonpos (cmp_semver a b) ≡ true
    → is_nonpos (cmp_semver b c) ≡ true
    → is_nonpos (cmp_semver a c) ≡ true
unfolding cmp_semver
cmp_semver_trans a b c = first_by_trans a.major b.major c.major _ _ _ (
    first_by_trans a.minor b.minor c.minor _ _ _
      (first_by_trans a.patch b.patch c.patch _ _ _ (λ p q. refl)))

-- Comparing two versions the other way round negates the result, it is 0 exactly for equal versions,
-- and "not greater" carries over from one pair to the next: versions are totally ordered.
pub cmp_semver-IsOrder :
    (a b c : SemVer)
    → (cmp_semver b a ≡ neg (cmp_semver a b))
      × (((cmp_semver a b ≡ pos 0) ↔ (a ≡ b))
          × (is_nonpos (cmp_semver a b) ≡ true
              → is_nonpos (cmp_semver b c) ≡ true
              → is_nonpos (cmp_semver a c) ≡ true))
cmp_semver-IsOrder a b c = (
  cmp_semver-neg a b,
  (
    (cmp_semver-zero a b, λ e. ap (λ x. cmp_semver a x) (sym e) ∙ cmp_semver_self a),
    cmp_semver_trans a b c,
  ),
)
