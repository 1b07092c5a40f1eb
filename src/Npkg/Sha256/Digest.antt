-- ===== src/Npkg/Sha256/Digest.antt =====
-- The digest of sha256.c (src/pkg/nprt-pkg) against the padded message.
use nullprt.Npkg.Sha256.{
  sha256_final, sha256_hex, sha256_update, update_loop, h_start, output, hex, Sha256, pad_to,
  big_endian, sha256_block, close_block,
}
use nullprt.Base.{
  zero, suc, [], ◌∷◌, true, false, refl, append_nil, append_assoc, ap₂, ltb, Bool, ◌^◌, ◌*◌,
  length-replicate, length-drop, ◌∙◌, take, sym, length-append, drop, arith, ap, ◌++◌, ◌≡◌, ◌<◌,
  ◌%◌, ◌≤◌, ◌-◌, ◌+◌, length, replicate, List, Bytes, ℕ,
}
use nullprt.Npkg.Sha256.Update.{update_loop-Absorbs, take-append-drop, length-take}
use nullprt.Npkg.Sha256.Stream.{absorb_round, absorb_all-block, absorb_short, absorb_all, absorb}
use native.Mathlib.Nat.{le_refl}
use native.Mathlib.Decide.{dec_lt}

-- The padding of a message of `n` bytes: a one bit, zeros up to 8 bytes before the end of a block, and
-- the number of bits.
abbrev pub padding : ℕ → ℕ → Bytes
padding n bits = 128 ∷ (replicate ((119 - n % 64) % 64) 0 ++ big_endian 8 bits)

absorb-append :
    (n : ℕ) (h : List ℕ) (x y : Bytes)
    → length x ≤ n
    → absorb_all (absorb n h x).0 ((absorb n h x).1 ++ y) ≡ absorb_all h (x ++ y)
absorb-append zero h x y k = refl
absorb-append (suc n) h x y k =
    by_size (dec_lt (length x) 64) (absorb-append n (sha256_block h (take 64 x)) (drop 64 x) y)
  where
    by_size :
        Dec (length x < 64)
        → (length (drop 64 x) ≤ n
            → absorb_all
                (absorb n (sha256_block h (take 64 x)) (drop 64 x)).0
                ((absorb n (sha256_block h (take 64 x)) (drop 64 x)).1 ++ y)
              ≡ absorb_all (sha256_block h (take 64 x)) (drop 64 x ++ y))
        → absorb_all (absorb (suc n) h x).0 ((absorb (suc n) h x).1 ++ y) ≡ absorb_all h (x ++ y)
    by_size (yes d) r = ap (λ p. absorb_all p.0 (p.1 ++ y)) (absorb_short (suc n) h x d)
    by_size (no d) r =
        ap (λ p. absorb_all p.0 (p.1 ++ y)) (absorb_round n h x (omega arith))
        ∙ r (omega (arith, length-drop 64 x))
        ∙ sym (absorb_all-block h (take 64 x) (drop 64 x ++ y) (length-take 64 x (omega arith)))
        ∙ ap (absorb_all h) (
            sym (append_assoc (take 64 x) (drop 64 x) y) ∙ ap (λ l. l ++ y) (take-append-drop 64 x))

-- Whole blocks do not change the length modulo their size.
length-absorb :
    (n : ℕ) (h : List ℕ) (x : Bytes) → length x ≤ n → length (absorb n h x).1 ≡ length x % 64
length-absorb zero h x k = omega arith
length-absorb (suc n) h x k =
    by_size (dec_lt (length x) 64) (length-absorb n (sha256_block h (take 64 x)) (drop 64 x))
  where
    by_size :
        Dec (length x < 64)
        → (length (drop 64 x) ≤ n
            → length (absorb n (sha256_block h (take 64 x)) (drop 64 x)).1
              ≡ length (drop 64 x) % 64)
        → length (absorb (suc n) h x).1 ≡ length x % 64
    by_size (yes d) r = omega (arith, ap (λ p. length p.1) (absorb_short (suc n) h x d))
    by_size (no d) r = omega (
      arith,
      ap (λ p. length p.1) (absorb_round n h x (omega arith)),
      length-drop 64 x,
      r (omega (arith, length-drop 64 x)),
    )

zeros_add : (a b : ℕ) → replicate {A = ℕ} (a + b) 0 ≡ replicate a 0 ++ replicate b 0
zeros_add zero b = let e : zero + b ≡ b = omega arith in ap (λ k. replicate {A = ℕ} k 0) e
zeros_add (suc a) b =
    let e : suc a + b ≡ suc (a + b) = omega arith in
    ap (λ k. replicate {A = ℕ} k 0) e ∙ ap (λ l. 0 ∷ l) (zeros_add a b)

length-padding : (n bits : ℕ) → length (padding n bits) ≡ (119 - n % 64) % 64 + 9
length-padding n bits = omega (
  arith,
  length-append (replicate {A = ℕ} ((119 - n % 64) % 64) 0) (big_endian 8 bits),
  length-replicate {A = ℕ} ((119 - n % 64) % 64) 0,
)

absorb_all_last :
    (h : List ℕ) (block : Bytes) → length block ≡ 64 → (absorb_all h block).0 ≡ sha256_block h block
absorb_all_last h block e =
    ap (λ l. (absorb_all h l).0) (sym (append_nil block))
    ∙ ap (λ p. p.0) (absorb_all-block h block [] e)

close_block_one :
    (h : List ℕ) (buf : Bytes) (bits : ℕ)
    → length buf < 56
    → close_block h (buf ++ (128 ∷ [])) bits ≡ (absorb_all h (buf ++ padding (length buf) bits)).0
close_block_one h buf bits k =
    let size = length-append buf (128 ∷ []) in
    let zeros : 56 - length (buf ++ (128 ∷ [])) ≡ (119 - length buf % 64) % 64 = omega arith in
    let same : pad_to 56 (buf ++ (128 ∷ [])) ++ big_endian 8 bits
        ≡ buf ++ padding (length buf) bits =
      append_assoc (buf ++ (128 ∷ [])) (replicate (56 - length (buf ++ (128 ∷ []))) 0)
        (big_endian 8 bits)
      ∙ append_assoc buf (128 ∷ [])
          (replicate (56 - length (buf ++ (128 ∷ []))) 0 ++ big_endian 8 bits)
      ∙ ap (λ z. buf ++ (128 ∷ (replicate z 0 ++ big_endian 8 bits))) zeros in
    ap (sha256_block h) same
    ∙ sym (
        absorb_all_last h (buf ++ padding (length buf) bits) (
          omega (
            arith,
            length-append buf (padding (length buf) bits),
            length-padding (length buf) bits,
          )))

close_block_two :
    (h : List ℕ) (buf : Bytes) (bits : ℕ)
    → 56 ≤ length buf
    → length buf < 64
    → close_block (sha256_block h (pad_to 64 (buf ++ (128 ∷ [])))) [] bits
      ≡ (absorb_all h (buf ++ padding (length buf) bits)).0
close_block_two h buf bits k l =
    let one = buf ++ (128 ∷ []) in
    let size = length-append buf (128 ∷ []) in
    let z = 64 - length one in
    let first = pad_to 64 one in
    let last = replicate {A = ℕ} 56 0 ++ big_endian 8 bits in
    let split : (119 - length buf % 64) % 64 ≡ z + 56 = omega arith in
    let same : buf ++ padding (length buf) bits ≡ first ++ last =
      ap (λ n. buf ++ (128 ∷ (replicate n 0 ++ big_endian 8 bits))) split
      ∙ ap (λ r. buf ++ (128 ∷ (r ++ big_endian 8 bits))) (zeros_add z 56)
      ∙ ap (λ r. buf ++ (128 ∷ r))
          (append_assoc (replicate z 0) (replicate 56 0) (big_endian 8 bits))
      ∙ sym (append_assoc buf (128 ∷ []) (replicate z 0 ++ last))
      ∙ sym (append_assoc one (replicate z 0) last) in
    let full = length-append one (replicate z 0) in
    let filled = length-replicate {A = ℕ} z 0 in
    sym (
      ap (λ p. (absorb_all h p).0) same
      ∙ ap (λ p. p.0) (absorb_all-block h first last (omega arith))
      ∙ absorb_all_last (sha256_block h first) last refl)

sha256_final_lem :
    (s : Sha256)
    → length s.buf < 64
    → sha256_final s ≡ output (absorb_all s.h (s.buf ++ padding (length s.buf) s.len_bits)).0
unfolding sha256_final
sha256_final_lem s k = ap output (by_test (ltb 56 (length (s.buf ++ (128 ∷ [])))) refl)
  where
    by_test :
        (t : Bool)
        → ltb 56 (length (s.buf ++ (128 ∷ []))) ≡ t
        → (elim t [
          | false ↦ close_block s.h (s.buf ++ (128 ∷ [])) s.len_bits
          | true ↦ close_block (sha256_block s.h (pad_to 64 (s.buf ++ (128 ∷ [])))) [] s.len_bits
        ])
          ≡ (absorb_all s.h (s.buf ++ padding (length s.buf) s.len_bits)).0
    by_test false e =
        close_block_one s.h s.buf s.len_bits (ground (arith, length-append s.buf (128 ∷ [])))
    by_test true e =
        close_block_two s.h s.buf s.len_bits (ground (arith, length-append s.buf (128 ∷ []))) k

-- The number of bits of a message of `n` bytes, as a `uint64_t`.
abbrev pub bit_count : ℕ → ℕ
bit_count n = n * 8 % 2 ^ 64

-- The hash of a message is that of its padded form, cut into whole blocks and taken block by block:
-- what the buffer and the two cases of the last block do makes no difference. The padded form is a
-- whole number of blocks.
pub sha256_hex_lem :
    (m : Bytes)
    → (sha256_hex m
        ≡ hex (output (absorb_all h_start (m ++ padding (length m) (bit_count (length m)))).0))
      × (length (m ++ padding (length m) (bit_count (length m))) % 64 ≡ 0)
unfolding sha256_hex sha256_update
sha256_hex_lem m =
    let bits = bit_count (length m) in
    let s : Sha256 = record { h = h_start; len_bits = (0 + length m * 8) % 2 ^ 64; buf = [] } in
    let u = update_loop (length m) s m in
    let a = update_loop-Absorbs (length m) s m (le_refl (length m)) (omega arith) in
    let rest : length u.buf % 64 ≡ length m % 64 = omega (
      arith,
      ap (λ p. length p.1) a.state,
      length-absorb (length m) h_start m (le_refl (length m)),
    ) in
    let count : u.len_bits ≡ bits = omega (arith, a.counted) in
    let pads : padding (length u.buf) u.len_bits ≡ padding (length m) bits =
      ap₂ (λ k b. 128 ∷ (replicate ((119 - k) % 64) 0 ++ big_endian 8 b)) rest count in
    (
      ap hex (
          sha256_final_lem u a.room
          ∙ ap output (
              ap (λ p. (absorb_all u.h (u.buf ++ p)).0) pads
              ∙ ap (λ p. (absorb_all p.0 (p.1 ++ padding (length m) bits)).0) a.state
              ∙ ap (λ p. p.0)
                  (absorb-append (length m) h_start m (padding (length m) bits)
                    (le_refl (length m))))),
      omega (arith, length-append m (padding (length m) bits), length-padding (length m) bits),
    )
