-- ===== src/Npkg/Resolver/Newer.antt =====
-- The order on the strings that are versions (src/pkg/nprt-pkg/resolver.c, `semver_compare_str`), and
-- the better of two.
use nullprt.Npkg.Version.{
  semver_compare_str, strcmp, compare_parsed, parse_semver, cmp_semver, SemVer,
}
use nullprt.Base.{
  zero, suc, true, false, some, inl, inr, refl, if◌then◌else◌, arith, sym, ap₂, ◌⊎◌, ◌∙◌, ◌≡◌, ap,
  Bool, Bytes,
}
use nullprt.Npkg.Resolver.{better}
use nullprt.Base.Int.{neg, negsuc, pos, is_pos, ℤ, is_nonpos}
use nullprt.Npkg.Version.Order.{cmp_semver-neg, cmp_semver_self, cmp_semver_trans}

abbrev pub IsVersion : Bytes → Type 0
IsVersion v = (s : SemVer) × (parse_semver v ≡ some s)

-- The version `v` is not newer than `w`.
abbrev pub NotNewer : Bytes → Bytes → Type 0
NotNewer v w = is_nonpos (semver_compare_str v w) ≡ true

compare_str :
    (v w : Bytes) (a : IsVersion v) (b : IsVersion w) → semver_compare_str v w ≡ cmp_semver a.0 b.0
unfolding semver_compare_str
compare_str v w a b = ap₂ (λ x y. compare_parsed x y (strcmp v w)) a.1 b.1

pub NotNewer-refl : (v : Bytes) → IsVersion v → NotNewer v v
NotNewer-refl v a = ap is_nonpos (compare_str v v a a ∙ cmp_semver_self a.0)

pub NotNewer-trans :
    (u v w : Bytes)
    → IsVersion u
    → IsVersion v
    → IsVersion w
    → NotNewer u v
    → NotNewer v w
    → NotNewer u w
NotNewer-trans u v w a b c h k =
    ap is_nonpos (compare_str u w a c)
    ∙ cmp_semver_trans a.0 b.0 c.0 (ap is_nonpos (sym (compare_str u v a b)) ∙ h)
        (ap is_nonpos (sym (compare_str v w b c)) ∙ k)

-- The better of two versions is one of them, and neither is newer.
pub record Better (found best r : Bytes) : Type 0 where
  pub version : IsVersion r
  pub found_old : NotNewer found r
  pub best_old : NotNewer best r
  pub one_of : (r ≡ found) ⊎ (r ≡ best)

pub better-Better :
    (found best : Bytes) → IsVersion found → IsVersion best → Better found best (better found best)
better-Better found best a b = by_test (is_pos (semver_compare_str found best)) refl
  where
    is_pos_nonpos : (x : ℤ) → is_pos x ≡ false → is_nonpos x ≡ true
    is_pos_nonpos (pos n) h = ground arith
    is_pos_nonpos (negsuc n) h = refl

    is_pos_neg : (x : ℤ) → is_pos x ≡ true → is_nonpos (neg x) ≡ true
    is_pos_neg (pos zero) h = ground arith
    is_pos_neg (pos (suc n)) h = refl
    is_pos_neg (negsuc n) h = ground arith

    by_test :
        (t : Bool)
        → is_pos (semver_compare_str found best) ≡ t
        → Better found best (if t then found else best)
    by_test true e =
        let back : semver_compare_str best found ≡ neg (semver_compare_str found best) =
          compare_str best found b a
          ∙ cmp_semver-neg a.0 b.0
          ∙ ap neg (sym (compare_str found best a b)) in
        record {
          version = a;
          found_old = NotNewer-refl found a;
          best_old = ap is_nonpos back ∙ is_pos_neg (semver_compare_str found best) e;
          one_of = inl refl;
        }
    by_test false e = record {
      version = b;
      found_old = is_pos_nonpos (semver_compare_str found best) e;
      best_old = NotNewer-refl best b;
      one_of = inr refl;
    }
