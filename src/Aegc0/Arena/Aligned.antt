-- ===== src/Aegc0/Arena/Aligned.antt =====
-- What an allocation in the arena of the seed compiler gives (src/seed/aegc0/arena.c).
use nullprt.Aegc0.Arena.{align_up, arena_alloc, grow, set_align, Arena}
use nullprt.Base.{
  zero, suc, true, false, none, some, inl, inr, refl, ◌∙◌, Bool-cases, if◌then◌else◌, bit_and,
  ltb→lt, ◌⊎◌, ◌%◌, ltb, ◌==◌, ◌-◌, ◌*◌, ◌≡◌, ◌+◌, while_inv, arith, ◌≤◌, ◌^◌, ◌<◌, Bool, ℕ,
}
use mathlib.Core.Path.{ap, sym, subst}
use nullprt.Aegc0.Arena.Masks.{bit_and-IsBelow, bit_and_power, IsBelow}
use native.Mathlib.Nat.{pow-suc}

-- A block of `size` bytes at `o` is aligned, and stands behind what was given out before and less
-- than one alignment further.
pub record IsPlace (k : ℕ) (a : Arena) (o : ℕ) : Type 0 where
  pub times : ℕ
  pub aligned : o ≡ times * 2 ^ k
  pub behind : a.len ≤ o
  pub near : o < a.len + 2 ^ k

-- The capacity that is asked for where the old one is too small for `needed` bytes: the old one, or
-- 4096 where there was none, doubled as often as it takes and no more often.
pub record IsAsked (a : Arena) (needed c : ℕ) : Type 0 where
  pub short : a.cap < needed
  pub rounds : ℕ
  pub doubled : ((a.cap ≡ 0) × (c ≡ 4096 * 2 ^ rounds)) ⊎ ((0 < a.cap) × (c ≡ a.cap * 2 ^ rounds))
  pub enough : needed ≤ c
  pub least : (rounds ≡ 0) ⊎ (c < 2 * needed)

-- The block is at its place and within the capacity, which is kept or is granted anew.
pub record IsGranted (grants : ℕ → Bool) (k size : ℕ) (a : Arena) (o : ℕ) (b : Arena) : Type 0 where
  pub place : IsPlace k a o
  pub full : b.len ≡ o + size
  pub room : b.len ≤ b.cap
  pub capacity : (b.cap ≡ a.cap) ⊎ (IsAsked a (o + size) b.cap × (grants b.cap ≡ true))

power-pos : (k : ℕ) → 0 < 2 ^ k
power-pos zero = omega arith
power-pos (suc k) = omega (arith, pow-suc 2 k, power-pos k)

set_align-power : (k : ℕ) → set_align (2 ^ k) ≡ 2 ^ k
unfolding set_align
set_align-power k =
    let some_bytes : (2 ^ k == 0) ≡ false = ground (arith, power-pos k) in
    rw (some_bytes, bit_and_power k) refl

align_up-IsBelow :
    (k x : ℕ) → k ≤ 64 → x + 2 ^ k ≤ 2 ^ 63 → IsBelow k (x + (2 ^ k - 1)) (align_up x (2 ^ k))
unfolding align_up
align_up-IsBelow k x h l =
    let pos = power-pos k in
    let n : k + (64 - k) ≡ 64 = omega arith in
    let fits : (x + (2 ^ k - 1)) % 2 ^ 64 ≡ x + (2 ^ k - 1) = omega arith in
    let mask : 2 ^ 64 - 1 - (2 ^ k - 1) ≡ 2 ^ 64 - 2 ^ k = omega arith in
    rw (fits, mask)
      (subst (λ m. IsBelow k (x + (2 ^ k - 1)) (bit_and (x + (2 ^ k - 1)) (2 ^ m - 2 ^ k))) n
        (bit_and-IsBelow k (64 - k) (x + (2 ^ k - 1))
          (subst (λ m. x + (2 ^ k - 1) < 2 ^ m) (sym n) (omega arith))))

-- What the loop of doublings comes to.
record Grown (base needed c : ℕ) : Type 0 where
  pos : 0 < c
  rounds : ℕ
  doubled : c ≡ base * 2 ^ rounds
  least : (rounds ≡ 0) ⊎ (c < 2 * needed)

Grown-double :
    (base needed c : ℕ)
    → needed ≤ 2 ^ 63
    → c < needed
    → Grown base needed c
    → Grown base needed (c * 2 % 2 ^ 64)
Grown-double base needed c h l g =
    let whole : c * 2 % 2 ^ 64 ≡ c * 2 = omega arith in
    let next : c * 2 ≡ base * 2 ^ suc g.rounds =
      ap (λ x. x * 2) g.doubled ∙ sym (ap (λ x. base * x) (pow-suc 2 g.rounds) ∙ omega arith) in
    subst (Grown base needed) (sym whole) (record {
      pos = omega (arith, g.pos);
      rounds = suc g.rounds;
      doubled = next;
      least = inr (omega arith);
    })

grow-Grown :
    (needed base : ℕ)
    → needed ≤ 2 ^ 63
    → 0 < base
    → Grown base needed (grow needed base) × (needed ≤ grow needed base)
unfolding grow
grow-Grown needed base h l =
    let ends =
      while_inv (Grown base needed) (λ c. needed - c) (λ c. ltb c needed) (λ c. c * 2 % 2 ^ 64)
        (λ c p t.
          let lt = ltb→lt c needed t in (Grown-double base needed c h lt p, omega (arith, p.pos)))
        (needed + 1) base (omega arith)
        (record { pos = l; rounds = 0; doubled = omega arith; least = inl refl }) in
    (ends.0, ground (arith, ends.1))

first_cap-cases :
    (a : Arena) (n : ℕ)
    → ((a.cap ≡ 0) × ((if a.cap == 0 then 4096 else a.cap) * n ≡ 4096 * n))
      ⊎ ((0 < a.cap) × ((if a.cap == 0 then 4096 else a.cap) * n ≡ a.cap * n))
first_cap-cases a n = elim (Bool-cases (a.cap == 0)) [
  | inl e ↦ inl (ground arith, rw e refl)
  | inr e ↦ inr (ground arith, rw e refl)
]

grow-IsAsked :
    (a : Arena) (needed : ℕ)
    → needed ≤ 2 ^ 63
    → a.cap < needed
    → IsAsked a needed (grow needed (if a.cap == 0 then 4096 else a.cap))
grow-IsAsked a needed h l =
    let (g, e) = grow-Grown needed (if a.cap == 0 then 4096 else a.cap) h (ground arith) in
    record {
      short = l;
      rounds = g.rounds;
      doubled = elim (first_cap-cases a (2 ^ g.rounds)) [
        | inl x ↦ inl (x.0, g.doubled ∙ x.1)
        | inr x ↦ inr (x.0, g.doubled ∙ x.1)
      ];
      enough = e;
      least = g.least;
    }

-- An allocation with an alignment that is a power of two, as long as the arena stays within 2 ^ 63
-- bytes. The block has its place: an offset that is a multiple of the alignment, behind all that
-- was given out before and less than one alignment further. The allocation fails just where the
-- block does not fit the capacity and the capacity asked for is refused: the old one, or 4096 where
-- there was none, doubled just as often as the block takes. Otherwise the arena ends behind the new
-- bytes, within its capacity, which is the old one or the one asked for.
pub arena_alloc-IsGranted :
    (grants : ℕ → Bool) (a : Arena) (size k : ℕ)
    → k ≤ 64
    → a.len ≤ a.cap
    → a.len + 2 ^ k + size ≤ 2 ^ 63
    → (o : ℕ) × IsPlace k a o
      × (((arena_alloc grants a size (2 ^ k) ≡ none)
            × ((c : ℕ) × IsAsked a (o + size) c × (grants c ≡ false)))
          ⊎ ((b : Arena) × (arena_alloc grants a size (2 ^ k) ≡ some (o, b))
              × IsGranted grants k size a o b))
unfolding arena_alloc
arena_alloc-IsGranted grants a size k h r l =
    let start = align_up a.len (2 ^ k) in
    let b = align_up-IsBelow k a.len h (omega arith) in
    let fits : (start + size) % 2 ^ 64 ≡ start + size = omega (arith, b.below, power-pos k) in
    let bounded : start + size ≤ 2 ^ 63 = omega (arith, b.below, power-pos k) in
    let old = if a.cap == 0 then 4096 else a.cap in
    let new_cap = grow (start + size) old in
    let place : IsPlace k a start = record {
      times = b.times;
      aligned = b.multiple;
      behind = omega (arith, b.near, power-pos k);
      near = omega (arith, b.below, power-pos k);
    } in
    (
      start,
      place,
      rw (set_align-power k, fits)
          (elim (Bool-cases (ltb a.cap (start + size))) [
            | inl e ↦
                let asked = grow-IsAsked a (start + size) bounded (ltb→lt _ _ e) in
                elim (Bool-cases (grants new_cap)) [
                  | inl g ↦ inr (
                    record { len = start + size; cap = new_cap },
                    rw (e, g) refl,
                    record {
                      place = place;
                      full = refl;
                      room = asked.enough;
                      capacity = inr (asked, g);
                    },
                  )
                  | inr g ↦ inl (rw (e, g) refl, (new_cap, asked, g))
                ]
            | inr e ↦ inr (
              record { len = start + size; cap = a.cap },
              rw e refl,
              record { place = place; full = refl; room = ground arith; capacity = inl refl },
            )
          ]),
    )
