-- ===== src/Aegc1/Features/Laws.antt =====
-- What a mask of features answers after a feature was added (frontend/parser.c).
use nullprt.Base.{
  ℕ, ◌*◌, ◌^◌, ◌≤◌, bit_or, Bool, false, ◌&&◌, ◌||◌, ◌==◌, ◌⊎◌, arith, ◌≡◌, ap, inl, inr,
}
use nullprt.Base.Bits.{bit_at, bit_at-or, bit_and-pow, bit_at-le, bit_at-zero, bit_at-pow}
use nullprt.Aegc1.Features.{has, add_if}
use native.Mathlib.Nat.{one-le-pow}

has-bit_at : (bits k : ℕ) → has bits k ≡ (bit_at k bits == 1)
unfolding has
has-bit_at bits k = elim (bit_at-cases (bit_at k bits) (bit_at-le k bits)) [
  | inl e ↦ ground (arith, bit_and-pow k bits, ap (λ (t : ℕ). t * 2 ^ k) e)
  | inr e ↦ ground (arith, bit_and-pow k bits, ap (λ (t : ℕ). t * 2 ^ k) e, one-le-pow k 2)
]
  where
    bit_at-cases : (b : ℕ) → b ≤ 1 → (b ≡ 0) ⊎ (b ≡ 1)
    bit_at-cases b h = omega arith

-- No feature is in the empty mask.
pub has-zero : (k : ℕ) → has 0 k ≡ false
has-zero k = ground (arith, has-bit_at 0 k, bit_at-zero k)

pub has-or : (a b k : ℕ) → has (bit_or a b) k ≡ (has a k || has b k)
has-or a b k = ground (
  arith,
  has-bit_at (bit_or a b) k,
  has-bit_at a k,
  has-bit_at b k,
  bit_at-or k a b,
  bit_at-le k a,
  bit_at-le k b,
)

-- Adding a feature answers for that feature, and changes no other answer.
pub has-add_if :
    (test : Bool) (j bits k : ℕ) → has (add_if test j bits) k ≡ (has bits k || (test && k == j))
unfolding add_if
has-add_if test j bits k =
    ground (arith, has-or bits (2 ^ j) k, has-bit_at (2 ^ j) k, bit_at-pow k j)
