-- ===== src/Aegc0/Arena.antt =====
-- The arena of the seed compiler (src/seed/aegc0/arena.c): the length and the capacity of its
-- block, in a `size_t` of 64 bits. A result is an offset in the block. The bytes, which are set to
-- zero, are left out.
pub mod Masks
pub mod Aligned
use nullprt.Base.{
  ◌^◌, ◌*◌, ◌-◌, ◌%◌, ltb, ◌==◌, ◌+◌, Option, while, if◌then◌else◌, bit_and, Bool, zero, suc, [],
  ◌∷◌, true, false, none, some, inl, inr, refl, ℕ,
}

pub record Arena : Type 0 where
  pub len : ℕ
  pub cap : ℕ

abbrev pub arena_init : Arena
arena_init = record { len = 0; cap = 0 }

-- `(x + mask) & ~mask`
unfoldable pub align_up : ℕ → ℕ → ℕ
align_up x a = bit_and ((x + (a - 1)) % 2 ^ 64) (2 ^ 64 - 1 - (a - 1))

-- An alignment that is no power of two is that of a pointer.
unfoldable pub set_align : ℕ → ℕ
set_align a = let b = if a == 0 then 1 else a in if bit_and b (b - 1) == 0 then b else 8

-- The capacity is doubled until it is enough.
unfoldable pub grow : ℕ → ℕ → ℕ
grow needed cap = while (needed + 1) (λ c. ltb c needed) (λ c. c * 2 % 2 ^ 64) cap

-- `realloc` grants a capacity or does not.
unfoldable pub arena_alloc : (ℕ → Bool) → Arena → ℕ → ℕ → Option (ℕ × Arena)
arena_alloc grants a size align =
    let start = align_up a.len (set_align align) in
    let needed = (start + size) % 2 ^ 64 in
    let new_cap = grow needed (if a.cap == 0 then 4096 else a.cap) in
    if ltb a.cap needed
    then if grants new_cap then some (start, record { len = needed; cap = new_cap }) else none
    else some (start, record { len = needed; cap = a.cap })
