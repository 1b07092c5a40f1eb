-- ===== src/Npkg/Resolver/Colors.antt =====
-- The colours of the search (src/pkg/nprt-pkg/resolver.c, the array `color`), beyond whose end every
-- entry reads black.
use nullprt.Base.{
  ◌⊎◌, ◌+◌, ◌==◌, ◌<◌, arith, ap, ◌≤◌, ◌≢◌, ◌≡◌, set, length, if◌then◌else◌, get_or, replicate,
  List, zero, suc, [], ◌∷◌, inl, inr, refl, ℕ,
}
use nullprt.Npkg.Resolver.{black, white}

abbrev pub color_of : List ℕ → ℕ → ℕ
color_of l u = get_or l u black

pub color_of-set-same : (l : List ℕ) (u c : ℕ) → color_of l u ≢ black → color_of (set l u c) u ≡ c
color_of-set-same [] u c h = absurd (h refl)
color_of-set-same (x ∷ l) zero c h = refl
color_of-set-same (x ∷ l) (suc u) c h = color_of-set-same l u c h

pub color_of-set-black : (l : List ℕ) (u : ℕ) → color_of (set l u black) u ≡ black
color_of-set-black [] u = refl
color_of-set-black (x ∷ l) zero = refl
color_of-set-black (x ∷ l) (suc u) = color_of-set-black l u

pub color_of-set-other : (l : List ℕ) (u v c : ℕ) → u ≢ v → color_of (set l u c) v ≡ color_of l v
color_of-set-other [] u v c h = refl
color_of-set-other (x ∷ l) zero zero c h = absurd (h refl)
color_of-set-other (x ∷ l) zero (suc v) c h = refl
color_of-set-other (x ∷ l) (suc u) zero c h = refl
color_of-set-other (x ∷ l) (suc u) (suc v) c h = color_of-set-other l u v c (λ e. h (ap suc e))

pub length-set : (l : List ℕ) (u c : ℕ) → length (set l u c) ≡ length l
length-set [] u c = refl
length-set (x ∷ l) zero c = refl
length-set (x ∷ l) (suc u) c = ap suc (length-set l u c)

-- The dependencies that no call has taken yet.
abbrev pub whites : List ℕ → ℕ
whites [] = 0
whites (x ∷ l) = (if x == white then 1 else 0) + whites l

pub whites-le : (l : List ℕ) → whites l ≤ length l
whites-le [] = omega arith
whites-le (x ∷ l) = ground (arith, whites-le l)

pub whites-set :
    (l : List ℕ) (u c : ℕ) → color_of l u ≡ white → white < c → whites (set l u c) + 1 ≡ whites l
whites-set [] u c h p = ground arith
whites-set (x ∷ l) zero c h p = ground arith
whites-set (x ∷ l) (suc u) c h p = omega (arith, whites-set l u c h p)

pub color_of-replicate :
    (n u : ℕ)
    → (color_of (replicate n white) u ≡ white) × (u < n)
      ⊎ (color_of (replicate n white) u ≡ black) × (n ≤ u)
color_of-replicate zero u = inr (refl, omega arith)
color_of-replicate (suc n) zero = inl (refl, omega arith)
color_of-replicate (suc n) (suc u) = elim (color_of-replicate n u) [
  | inl h ↦ inl (h.0, omega (arith, h.1))
  | inr h ↦ inr (h.0, omega (arith, h.1))
]
