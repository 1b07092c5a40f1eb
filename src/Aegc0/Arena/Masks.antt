-- ===== src/Aegc0/Arena/Masks.antt =====
-- Masks of high bits: `x & ~(2 ^ k - 1)` is `x` without its last `k` digits
-- (src/seed/aegc0/arena.c).
use nullprt.Base.Bits.{bit_at, bit_at_ext, bit_at-and}
use nullprt.Base.{
  zero, suc, refl, ap, ◌∙◌, ◌%◌, ◌≤◌, ◌-◌, ◌+◌, ◌^◌, ◌/◌, ◌*◌, ◌≡◌, ◌<◌, arith, bit_and, sym, ℕ,
}
use native.Mathlib.Nat.{mul_assoc, pow-suc}
use Prim.Native.Nat.{min}
use mathlib.Core.Path.{subst}

bit_at_step :
    (x y k : ℕ)
    → bit_at k (bit_and x y) ≡ bit_at k (bit_and (x / 2) (y / 2) * 2 + min (x % 2) (y % 2))
unfolding bit_at
bit_at_step x y zero = omega (arith, bit_at-and 0 x y)
bit_at_step x y (suc k) =
    let half : (bit_and (x / 2) (y / 2) * 2 + min (x % 2) (y % 2)) / 2 ≡ bit_and (x / 2) (y / 2) =
      omega arith in
    bit_at-and (suc k) x y ∙ sym (ap (bit_at k) half ∙ bit_at-and k (x / 2) (y / 2))

bit_and_step : (x y : ℕ) → bit_and x y ≡ bit_and (x / 2) (y / 2) * 2 + min (x % 2) (y % 2)
bit_and_step x y =
    bit_at_ext (bit_and x y + (bit_and (x / 2) (y / 2) * 2 + min (x % 2) (y % 2))) _ _ (omega arith)
      (omega arith) (bit_at_step x y)

bit_and_all : (w x : ℕ) → x < 2 ^ w → bit_and x (2 ^ w - 1) ≡ x
bit_and_all zero x h = let z : x ≡ 0 = omega arith in rw z refl
bit_and_all (suc w) x h =
    let p = pow-suc 2 w in
    let half : (2 ^ suc w - 1) / 2 ≡ 2 ^ w - 1 = omega (arith, p) in
    bit_and_step x (2 ^ suc w - 1)
    ∙ rw half (omega (arith, p, bit_and_all w (x / 2) (omega (arith, p))))

-- A multiple of `2 ^ k`, and the next one is beyond `x`.
pub record IsBelow (k x r : ℕ) : Type 0 where
  pub times : ℕ
  pub multiple : r ≡ times * 2 ^ k
  pub below : r ≤ x
  pub near : x < r + 2 ^ k

pub bit_and-IsBelow : (k w x : ℕ) → x < 2 ^ (k + w) → IsBelow k x (bit_and x (2 ^ (k + w) - 2 ^ k))
bit_and-IsBelow zero w x h =
    let n : 0 + w ≡ w = omega arith in
    let e = bit_and_all w x (subst (λ m. x < 2 ^ m) n h) in
    rw n (record {
      times = x;
      multiple = omega (arith, e);
      below = omega (arith, e);
      near = omega (arith, e);
    })
bit_and-IsBelow (suc k) w x h =
    let p = pow-suc 2 k in
    let n : suc k + w ≡ suc (k + w) = omega arith in
    let q = ap (λ m. 2 ^ m) n ∙ pow-suc 2 (k + w) in
    let half : (2 ^ (suc k + w) - 2 ^ suc k) / 2 ≡ 2 ^ (k + w) - 2 ^ k = omega (arith, p, q) in
    let even : (2 ^ (suc k + w) - 2 ^ suc k) % 2 ≡ 0 = omega (arith, p, q) in
    let r = bit_and-IsBelow k w (x / 2) (omega (arith, q)) in
    let e : bit_and x (2 ^ (suc k + w) - 2 ^ suc k) ≡ bit_and (x / 2) (2 ^ (k + w) - 2 ^ k) * 2 =
      bit_and_step x (2 ^ (suc k + w) - 2 ^ suc k) ∙ rw (half, even) (omega arith) in
    record {
      times = r.times;
      multiple =
          e
          ∙ ap (λ t. t * 2) r.multiple
          ∙ mul_assoc r.times (2 ^ k) 2
          ∙ ap (λ t. r.times * t) (sym p);
      below = omega (arith, e, r.below);
      near = omega (arith, e, r.near, p);
    }

-- A power of two has no digit in common with its predecessor.
pub bit_and_power : (k : ℕ) → bit_and (2 ^ k) (2 ^ k - 1) ≡ 0
bit_and_power zero = refl
bit_and_power (suc k) =
    let p = pow-suc 2 k in
    let h1 : 2 ^ suc k / 2 ≡ 2 ^ k = omega (arith, p) in
    let h2 : (2 ^ suc k - 1) / 2 ≡ 2 ^ k - 1 = omega (arith, p) in
    let h3 : 2 ^ suc k % 2 ≡ 0 = omega (arith, p) in
    bit_and_step (2 ^ suc k) (2 ^ suc k - 1) ∙ rw (h1, h2, h3) (omega (arith, bit_and_power k))
