-- ===== src/Base/Sort.antt =====
-- The sort by exchanges that several sources write: each place in turn is compared with all later ones,
-- and an element that belongs before it is swapped in at once.
use Prim.Native.Nat.{ℕ, zero, suc, ◌≤◌}
use mathlib.Core.Bool.{Bool, true, false}
use mathlib.Core.List.{List, [], ◌∷◌, Perm}
use mathlib.Core.Logic.{inl, inr}
use mathlib.Core.Path.{◌≡◌, refl}
use native.Mathlib.Omega.{arith}
use nullprt.Base.{if◌then◌else◌, Bool-cases, All, length}
use mathlib.Core.List.Perm

-- One place against the later ones: what it holds at the end, and what the others hold.
unfoldable pub exchange : {A : Type 0} → (A → A → Bool) → A → List A → A × List A
exchange before x [] = (x, [])
exchange before x (y ∷ ys) =
    let swapped = before y x in
    let r = exchange before (if swapped then y else x) ys in (r.0, (if swapped then x else y) ∷ r.1)

unfoldable pub exchange_sort : {A : Type 0} → (A → A → Bool) → ℕ → List A → List A
exchange_sort before zero xs = xs
exchange_sort before (suc n) [] = []
exchange_sort before (suc n) (x ∷ xs) =
    let r = exchange before x xs in r.0 ∷ exchange_sort before n r.1

-- No element belongs before one that stands earlier.
abbrev pub IsSorted : {A : Type 0} → (A → A → Bool) → List A → Type 0
IsSorted before [] = Unit
IsSorted before (x ∷ xs) = All (λ y. before y x ≡ false) xs × IsSorted before xs

-- `before` is a strict order up to ties.
pub record IsOrder {A : Type 0} (before : A → A → Bool) : Type 0 where
  pub one_way : (x y : A) → before y x ≡ true → before x y ≡ false
  pub trans : (x y z : A) → before y x ≡ false → before z y ≡ false → before z x ≡ false

module _ {A : Type 0} (before : A → A → Bool) where
  exchange-length : (x : A) (xs : List A) → length (exchange before x xs).1 ≡ length xs
  unfolding exchange
  exchange-length x [] = refl
  exchange-length x (y ∷ ys) = omega (arith, exchange-length (if before y x then y else x) ys)

  -- Both ways of the test of `exchange`.
  exchange_cases :
      (P : A × List A → Type 0) (x y : A) (ys : List A)
      → (before y x ≡ true → P ((exchange before y ys).0, x ∷ (exchange before y ys).1))
      → (before y x ≡ false → P ((exchange before x ys).0, y ∷ (exchange before x ys).1))
      → P (exchange before x (y ∷ ys))
  unfolding exchange
  exchange_cases P x y ys h i = by_test (before y x) h i
    where
      by_test :
          (b : Bool)
          → (b ≡ true → P ((exchange before y ys).0, x ∷ (exchange before y ys).1))
          → (b ≡ false → P ((exchange before x ys).0, y ∷ (exchange before x ys).1))
          → P (let r = exchange before (if b then y else x) ys in (r.0, (if b then x else y) ∷ r.1))
      by_test true h i = h refl
      by_test false h i = i refl

  exchange-Perm :
      (x : A) (xs : List A) → Perm ((exchange before x xs).0 ∷ (exchange before x xs).1) (x ∷ xs)
  exchange-Perm x [] = unfold exchange in Perm.refl (x ∷ [])
  exchange-Perm x (y ∷ ys) =
      exchange_cases (λ r. Perm (r.0 ∷ r.1) (x ∷ y ∷ ys)) x y ys
        (λ e.
          Perm.trans (Perm.swap x (exchange before y ys).0 (exchange before y ys).1)
            (Perm.cons x (exchange-Perm y ys)))
        (λ e.
          Perm.trans (Perm.swap y (exchange before x ys).0 (exchange before x ys).1)
            (Perm.trans (Perm.cons y (exchange-Perm x ys)) (Perm.swap x y ys)))

  pub exchange_sort-Perm : (n : ℕ) (xs : List A) → Perm (exchange_sort before n xs) xs
  unfolding exchange_sort
  exchange_sort-Perm zero xs = Perm.refl xs
  exchange_sort-Perm (suc n) [] = Perm.refl []
  exchange_sort-Perm (suc n) (x ∷ xs) =
      Perm.trans
        (Perm.cons (exchange before x xs).0 (exchange_sort-Perm n (exchange before x xs).1))
        (exchange-Perm x xs)

  exchange-All :
      (P : A → Type 0) (x : A) (xs : List A)
      → P x
      → All P xs
      → P (exchange before x xs).0 × All P (exchange before x xs).1
  exchange-All P x [] p h = unfold exchange in (p, tt)
  exchange-All P x (y ∷ ys) p (q, h) =
      exchange_cases (λ r. P r.0 × All P r.1) x y ys
        (λ e. let k = exchange-All P y ys q h in (k.0, (p, k.1)))
        (λ e. let k = exchange-All P x ys p h in (k.0, (q, k.1)))

  pub exchange_sort-All :
      (P : A → Type 0) (n : ℕ) (xs : List A) → All P xs → All P (exchange_sort before n xs)
  unfolding exchange_sort
  exchange_sort-All P zero xs h = h
  exchange_sort-All P (suc n) [] h = tt
  exchange_sort-All P (suc n) (x ∷ xs) (p, h) =
      let k = exchange-All P x xs p h in (k.0, exchange_sort-All P n (exchange before x xs).1 k.1)

  exchange-least :
      IsOrder before
      → (x : A) (xs : List A)
      → (before x (exchange before x xs).0 ≡ false)
        × All (λ y. before y (exchange before x xs).0 ≡ false) (exchange before x xs).1
  exchange-least o x [] = unfold exchange in (irreflexive, tt)
    where
      irreflexive : before x x ≡ false
      irreflexive = elim (Bool-cases (before x x)) [ inl e ↦ o.one_way x x e | inr e ↦ e ]
  exchange-least o x (y ∷ ys) =
      exchange_cases (λ r. (before x r.0 ≡ false) × All (λ y. before y r.0 ≡ false) r.1) x y ys
        (λ e.
          let h = exchange-least o y ys in
          let least : before x (exchange before y ys).0 ≡ false =
            o.trans (exchange before y ys).0 y x h.0 (o.one_way x y e) in
          (least, (least, h.1)))
        (λ e.
          let h = exchange-least o x ys in (h.0, (o.trans (exchange before x ys).0 x y h.0 e, h.1)))

  pub exchange_sort-IsSorted :
      IsOrder before
      → (n : ℕ) (xs : List A) → length xs ≤ n
      → IsSorted before (exchange_sort before n xs)
  unfolding exchange_sort
  exchange_sort-IsSorted o zero [] l = tt
  exchange_sort-IsSorted o zero (x ∷ xs) l = absurd (omega arith)
  exchange_sort-IsSorted o (suc n) [] l = tt
  exchange_sort-IsSorted o (suc n) (x ∷ xs) l =
      let r = exchange before x xs in
      (
        exchange_sort-All (λ y. before y r.0 ≡ false) n r.1 (exchange-least o x xs).1,
        exchange_sort-IsSorted o n r.1 (omega (arith, exchange-length x xs)),
      )
