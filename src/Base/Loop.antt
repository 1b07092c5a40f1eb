-- ===== src/Base/Loop.antt =====
-- A `while` loop on fuel, and the rules that its users reason by.
use Prim.Native.Nat.{ℕ, zero, suc, ◌+◌, ◌<◌}
use mathlib.Core.Bool.{Bool, true, false}
use mathlib.Core.Path.{◌≡◌, refl}
use native.Mathlib.Omega.{arith}

-- At most `n` rounds of `step`, as long as `more` holds; a case of an `elim` waits for its test.
unfoldable pub while {ℓ} : {A : Type ℓ} → ℕ → (A → Bool) → (A → A) → A → A
while zero more step a = a
while (suc n) more step a = elim (more a) [ false ↦ a | true ↦ while n more step (step a) ]

module _ {ℓ} {A : Type ℓ} (n : ℕ) (more : A → Bool) (step : A → A) (a : A) where
  -- Where the test holds, the loop is one step and then the loop with one round less.
  pub while_round : more a ≡ true → while (n + 1) more step a ≡ while n more step (step a)
  unfolding while
  while_round goes = let e : n + 1 ≡ suc n = omega arith in rw e (rw (goes, while))

module _ {ℓ} {A : Type ℓ} where
  -- Where the test fails, the loop does nothing, whatever its fuel.
  pub while_done :
      (n : ℕ) (more : A → Bool) (step : A → A) (a : A) → more a ≡ false → while n more step a ≡ a
  unfolding while
  while_done zero more step a over = refl
  while_done (suc n) more step a over = rw (over, while)

-- What every step keeps holds of the result, even if the rounds run out.
module _ {ℓ κ} {A : Type ℓ} (Inv : A → Type κ) (more : A → Bool) (step : A → A)
    (kept : (a : A) → Inv a → more a ≡ true → Inv (step a)) where
  pub while_keeps : (n : ℕ) (a : A) → Inv a → Inv (while n more step a)
  unfolding while
  while_keeps zero a i = i
  while_keeps (suc n) a i = ground (arith, kept a i, while_keeps n (step a))

-- If every step also makes a size smaller, rounds beyond that size are enough: the loop ends where
-- its test fails.
module _ {ℓ κ} {A : Type ℓ} (Inv : A → Type κ) (size : A → ℕ) (more : A → Bool) (step : A → A)
    (kept : (a : A) → Inv a → more a ≡ true → Inv (step a) × (size (step a) < size a)) where
  pub while_inv :
      (n : ℕ) (a : A)
      → size a < n
      → Inv a
      → Inv (while n more step a) × (more (while n more step a) ≡ false)
  unfolding while
  while_inv zero a small i = absurd (omega arith)
  while_inv (suc n) a small i = ground (arith, kept a i, while_inv n (step a))
