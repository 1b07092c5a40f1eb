-- ===== src/Base/Int.antt =====
-- The integers over the native numbers: the C type `int` where its width plays no part.
use Prim.Native.Nat.{ℕ, zero, suc}
use mathlib.Core.Bool.{Bool, true, false}
use mathlib.Core.Path.{◌≡◌}
use native.Mathlib.Omega.{arith}
use nullprt.Base.Tests.{◌==◌, ltb, if◌then◌else◌}

pub data ℤ : Type 0 where
  pos : ℕ → ℤ
  negsuc : ℕ → ℤ

abbrev pub neg : ℤ → ℤ
neg (pos zero) = pos zero
neg (pos (suc n)) = negsuc n
neg (negsuc n) = pos (suc n)

abbrev pub eq_int : ℤ → ℤ → Bool
eq_int (pos a) (pos b) = a == b
eq_int (pos a) (negsuc b) = false
eq_int (negsuc a) (pos b) = false
eq_int (negsuc a) (negsuc b) = a == b

abbrev pub lt_int : ℤ → ℤ → Bool
lt_int (pos a) (pos b) = ltb a b
lt_int (pos a) (negsuc b) = false
lt_int (negsuc a) (pos b) = true
lt_int (negsuc a) (negsuc b) = ltb b a

-- `x <= 0`, `x > 0` and `x >= 0`
abbrev pub is_nonpos : ℤ → Bool
is_nonpos (pos a) = a == 0
is_nonpos (negsuc a) = true

abbrev pub is_pos : ℤ → Bool
is_pos (pos a) = ltb 0 a
is_pos (negsuc a) = false

abbrev pub is_nonneg : ℤ → Bool
is_nonneg (pos a) = true
is_nonneg (negsuc a) = false

-- `if (x != y) return (x < y) ? -1 : 1;` and what follows it.
abbrev pub first_by : ℤ → ℤ → ℤ → ℤ
first_by x y next = if eq_int x y then next else if lt_int x y then negsuc 0 else pos 1

pub first_by-neg : (x y p q : ℤ) → q ≡ neg p → first_by y x q ≡ neg (first_by x y p)
first_by-neg (pos a) (pos b) p q h = ground arith
first_by-neg (pos a) (negsuc b) p q h = ground arith
first_by-neg (negsuc a) (pos b) p q h = ground arith
first_by-neg (negsuc a) (negsuc b) p q h = ground arith

pub first_by-zero : (x y p : ℤ) → first_by x y p ≡ pos 0 → (x ≡ y) × (p ≡ pos 0)
first_by-zero (pos a) (pos b) p h = ground arith
first_by-zero (pos a) (negsuc b) p h = ground arith
first_by-zero (negsuc a) (pos b) p h = ground arith
first_by-zero (negsuc a) (negsuc b) p h = ground arith

pub first_by_trans :
    (x y z p q r : ℤ)
    → (is_nonpos p ≡ true → is_nonpos q ≡ true → is_nonpos r ≡ true)
    → is_nonpos (first_by x y p) ≡ true
    → is_nonpos (first_by y z q) ≡ true
    → is_nonpos (first_by x z r) ≡ true
first_by_trans (pos a) (pos b) (pos c) p q r k h i = ground arith
first_by_trans (pos a) (pos b) (negsuc c) p q r k h i = ground arith
first_by_trans (pos a) (negsuc b) z p q r k h i = ground arith
first_by_trans (negsuc a) (pos b) (pos c) p q r k h i = ground arith
first_by_trans (negsuc a) (pos b) (negsuc c) p q r k h i = ground arith
first_by_trans (negsuc a) (negsuc b) (pos c) p q r k h i = ground arith
first_by_trans (negsuc a) (negsuc b) (negsuc c) p q r k h i = ground arith
