-- ===== src/Base/Bits.antt =====
-- The binary digits of a word, as 0 or 1, and what `|`, `&` and `^` make of them, at every width.
use Prim.Native.Nat.{
  ℕ, zero, suc, ◌+◌, ◌*◌, ◌/◌, ◌%◌, ◌^◌, ◌≤◌, min, max, bit_and, bit_or, digits, bit_and-bitwise,
  bit_or-bitwise,
}
use mathlib.Core.Path.{◌≡◌, refl, ap, sym, ◌∙◌}
use native.Mathlib.Nat.{le_refl, pow-suc}
use native.Mathlib.Omega.{arith}
use nullprt.Base.Tests.{◌==◌, if◌then◌else◌}

unfoldable pub bit_at : ℕ → ℕ → ℕ
bit_at zero a = a % 2
bit_at (suc k) a = bit_at k (a / 2)

pub bit_at-le : (k a : ℕ) → bit_at k a ≤ 1
unfolding bit_at
bit_at-le zero a = omega arith
bit_at-le (suc k) a = bit_at-le k (a / 2)

pub bit_at-zero : (k : ℕ) → bit_at k 0 ≡ 0
unfolding bit_at
bit_at-zero zero = refl
bit_at-zero (suc k) = bit_at-zero k

-- An operation that works digit by digit does so at every place.
module _ (z : ℕ → ℕ) (f : ℕ → ℕ → ℕ) (ends : (k b : ℕ) → bit_at k (z b) ≡ f 0 (bit_at k b))
    (small : (x y : ℕ) → x ≤ 1 → y ≤ 1 → f x y ≤ 1) where
  bit_at-digits : (k n a b : ℕ) → a ≤ n → bit_at k (digits z f n a b) ≡ f (bit_at k a) (bit_at k b)
  unfolding bit_at
  bit_at-digits k zero zero b h = rw (bit_at-zero k) (ends k b)
  bit_at-digits k zero (suc a) b h = elim h [ ]
  bit_at-digits k (suc n) zero b h = rw (bit_at-zero k) (ends k b)
  bit_at-digits zero (suc n) (suc a) b h =
      omega (arith, small (suc a % 2) (b % 2) (omega arith) (omega arith))
  bit_at-digits (suc k) (suc n) (suc a) b h =
      let high = digits z f n (suc a / 2) (b / 2) in
      let low = f (suc a % 2) (b % 2) in
      let shift : (high * 2 + low) / 2 ≡ high =
        omega (arith, small (suc a % 2) (b % 2) (omega arith) (omega arith)) in
      ap (bit_at k) shift ∙ bit_at-digits k n (suc a / 2) (b / 2) (omega arith)

pub bit_at-or : (k a b : ℕ) → bit_at k (bit_or a b) ≡ max (bit_at k a) (bit_at k b)
bit_at-or k a b =
    ap (bit_at k) (bit_or-bitwise a b)
    ∙ bit_at-digits (λ y. y) max (λ j c. omega arith) (λ x y p q. omega arith) k a a b (le_refl a)

pub bit_at-and : (k a b : ℕ) → bit_at k (bit_and a b) ≡ min (bit_at k a) (bit_at k b)
bit_at-and k a b =
    ap (bit_at k) (bit_and-bitwise a b)
    ∙ bit_at-digits (λ y. 0) min (λ j c. omega (arith, bit_at-zero j)) (λ x y p q. omega arith) k a
        a b (le_refl a)

-- Words with the same digits are the same.
pub bit_at_ext : (n x y : ℕ) → x ≤ n → y ≤ n → ((k : ℕ) → bit_at k x ≡ bit_at k y) → x ≡ y
unfolding bit_at
bit_at_ext zero x y p q h = omega arith
bit_at_ext (suc n) x y p q h =
    omega (arith, h 0, bit_at_ext n (x / 2) (y / 2) (omega arith) (omega arith) (λ k. h (suc k)))

bit_at-one : (k : ℕ) → bit_at (suc k) 1 ≡ 0
unfolding bit_at
bit_at-one k = bit_at-zero k

-- A power of two has one digit.
pub bit_at-pow : (k j : ℕ) → bit_at k (2 ^ j) ≡ (if k == j then 1 else 0)
unfolding bit_at
bit_at-pow zero zero = refl
bit_at-pow (suc k) zero = ground (arith, bit_at-one k)
bit_at-pow zero (suc j) = ground (arith, pow-suc 2 j)
bit_at-pow (suc k) (suc j) =
    let half : 2 ^ suc j / 2 ≡ 2 ^ j = omega (arith, pow-suc 2 j) in
    rw half (ground (arith, bit_at-pow k j))

-- `mask & (1 << k)` is the digit in its place.
pub bit_and-pow : (k a : ℕ) → bit_and a (2 ^ k) ≡ bit_at k a * 2 ^ k
bit_and-pow k a = at_digit (bit_at k a) (bit_at-le k a) refl
  where
    at_digit : (d : ℕ) → d ≤ 1 → bit_at k a ≡ d → bit_and a (2 ^ k) ≡ d * 2 ^ k
    at_digit zero h e =
        bit_at_ext _ _ _ (le_refl _) (omega arith) (λ j.
          ground (arith, bit_at-and j a (2 ^ k), bit_at-pow j k, bit_at-zero j, bit_at-le j a))
    at_digit (suc zero) h e =
        let one : 1 * 2 ^ k ≡ 2 ^ k = omega arith in
        let same : bit_and a (2 ^ k) ≡ 2 ^ k =
          bit_at_ext (bit_and a (2 ^ k) + 2 ^ k) _ _ (omega arith) (omega arith)
            (λ j. bit_at-and j a (2 ^ k) ∙ masked j) in
        same ∙ sym one
      where
        masked : (j : ℕ) → min (bit_at j a) (bit_at j (2 ^ k)) ≡ bit_at j (2 ^ k)
        masked j = grind (arith, bit_at-pow j k, bit_at-le j a, e)
    at_digit (suc (suc d)) h e = ground arith
