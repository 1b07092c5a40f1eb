-- ===== src/Npkg/Sha256.antt =====
-- The hash of a package (src/pkg/nprt-pkg/sha256.c). A `uint32_t` is a number below 2 ^ 32, and the
-- part of `buf` that is in use is the list `buf`.
pub mod Stream
pub mod Update
pub mod Digest
use nullprt.Base.{
  drop, take, zero, suc, [], ◌∷◌, true, false, none, some, inl, inr, refl, ◌==◌, replicate, ◌-◌,
  ◌++◌, ◌*◌, ltb, length, get_or, ◌^◌, ◌/◌, ◌+◌, ◌%◌, if◌then◌else◌, bit_xor, bit_or, bit_and, List,
  Bytes, ℕ,
}
use Prim.Native.Nat.{min}

-- `uint32_t` arithmetic
abbrev u32 : ℕ → ℕ
u32 x = x % 2 ^ 32

abbrev not32 : ℕ → ℕ
not32 x = 2 ^ 32 - 1 - x

unfoldable pub rotr : ℕ → ℕ → ℕ
rotr x n = bit_or (x / 2 ^ n) (u32 (x * 2 ^ (32 - n)))

abbrev xor3 : ℕ → ℕ → ℕ → ℕ
xor3 x y z = bit_xor (bit_xor x y) z

unfoldable pub ch : ℕ → ℕ → ℕ → ℕ
ch x y z = bit_xor (bit_and x y) (bit_and (not32 x) z)

unfoldable pub maj : ℕ → ℕ → ℕ → ℕ
maj x y z = xor3 (bit_and x y) (bit_and x z) (bit_and y z)

abbrev pub bsig0 : ℕ → ℕ
bsig0 x = xor3 (rotr x 2) (rotr x 13) (rotr x 22)

abbrev pub bsig1 : ℕ → ℕ
bsig1 x = xor3 (rotr x 6) (rotr x 11) (rotr x 25)

abbrev pub ssig0 : ℕ → ℕ
ssig0 x = xor3 (rotr x 7) (rotr x 18) (x / 2 ^ 3)

abbrev pub ssig1 : ℕ → ℕ
ssig1 x = xor3 (rotr x 17) (rotr x 19) (x / 2 ^ 10)

abbrev pub k_table : List ℕ
k_table =
    1116352408 ∷ 1899447441 ∷ 3049323471 ∷ 3921009573 ∷ 961987163 ∷ 1508970993 ∷ 2453635748
    ∷ 2870763221 ∷ 3624381080 ∷ 310598401 ∷ 607225278 ∷ 1426881987 ∷ 1925078388 ∷ 2162078206
    ∷ 2614888103 ∷ 3248222580 ∷ 3835390401 ∷ 4022224774 ∷ 264347078 ∷ 604807628 ∷ 770255983
    ∷ 1249150122 ∷ 1555081692 ∷ 1996064986 ∷ 2554220882 ∷ 2821834349 ∷ 2952996808 ∷ 3210313671
    ∷ 3336571891 ∷ 3584528711 ∷ 113926993 ∷ 338241895 ∷ 666307205 ∷ 773529912 ∷ 1294757372
    ∷ 1396182291 ∷ 1695183700 ∷ 1986661051 ∷ 2177026350 ∷ 2456956037 ∷ 2730485921 ∷ 2820302411
    ∷ 3259730800 ∷ 3345764771 ∷ 3516065817 ∷ 3600352804 ∷ 4094571909 ∷ 275423344 ∷ 430227734
    ∷ 506948616 ∷ 659060556 ∷ 883997877 ∷ 958139571 ∷ 1322822218 ∷ 1537002063 ∷ 1747873779
    ∷ 1955562222 ∷ 2024104815 ∷ 2227730452 ∷ 2361852424 ∷ 2428436474 ∷ 2756734187 ∷ 3204031479
    ∷ 3329325298 ∷ []

abbrev pub h_start : List ℕ
h_start =
    1779033703 ∷ 3144134277 ∷ 1013904242 ∷ 2773480762 ∷ 1359893119 ∷ 2600822924 ∷ 528734635
    ∷ 1541459225 ∷ []

pub record Sha256 : Type 0 where
  pub h : List ℕ
  pub len_bits : ℕ
  pub buf : Bytes

abbrev pub sha256_init : Sha256
sha256_init = record { h = h_start; len_bits = 0; buf = [] }

-- The words of a block, four bytes each, the highest first.
unfoldable pub words : Bytes → List ℕ
words (a ∷ b ∷ c ∷ d ∷ block) = (a * 2 ^ 24 + b * 2 ^ 16 + c * 2 ^ 8 + d) ∷ words block
words block = []

-- The schedule from `i` on, with `n` words to come.
unfoldable pub schedule : ℕ → ℕ → List ℕ → List ℕ
schedule zero i w = w
schedule (suc n) i w =
    let next = u32 (
      ssig1 (get_or w (i - 2) 0)
      + get_or w (i - 7) 0
      + ssig0 (get_or w (i - 15) 0)
      + get_or w (i - 16) 0) in
    schedule n (i + 1) (w ++ (next ∷ []))

-- The eight working variables.
pub record Working : Type 0 where
  pub a : ℕ
  pub b : ℕ
  pub c : ℕ
  pub d : ℕ
  pub e : ℕ
  pub f : ℕ
  pub g : ℕ
  pub h : ℕ

abbrev pub round : ℕ → ℕ → Working → Working
round k w v =
    let t1 = u32 (v.h + bsig1 v.e + ch v.e v.f v.g + k + w) in
    let t2 = u32 (bsig0 v.a + maj v.a v.b v.c) in
    record {
      a = u32 (t1 + t2);
      b = v.a;
      c = v.b;
      d = v.c;
      e = u32 (v.d + t1);
      f = v.e;
      g = v.f;
      h = v.g;
    }

unfoldable pub rounds : List ℕ → List ℕ → Working → Working
rounds [] ws v = v
rounds (k ∷ ks) [] v = v
rounds (k ∷ ks) (w ∷ ws) v = rounds ks ws (round k w v)

abbrev add32 : List ℕ → List ℕ → List ℕ
add32 [] ys = []
add32 (x ∷ xs) [] = []
add32 (x ∷ xs) (y ∷ ys) = u32 (x + y) ∷ add32 xs ys

unfoldable pub sha256_block : List ℕ → Bytes → List ℕ
sha256_block h block =
    let v = rounds k_table (schedule 48 16 (words block)) (record {
      a = get_or h 0 0;
      b = get_or h 1 0;
      c = get_or h 2 0;
      d = get_or h 3 0;
      e = get_or h 4 0;
      f = get_or h 5 0;
      g = get_or h 6 0;
      h = get_or h 7 0;
    }) in
    add32 h (v.a ∷ v.b ∷ v.c ∷ v.d ∷ v.e ∷ v.f ∷ v.g ∷ v.h ∷ [])

-- One round of the loop of `sha256_update` took `taken`.
abbrev pub absorb_part : Sha256 → Bytes → Sha256
absorb_part s taken =
    let buf = s.buf ++ taken in
    elim (length buf == 64) [
      | false ↦ record { h = s.h; len_bits = s.len_bits; buf = buf }
      | true ↦ record { h = sha256_block s.h buf; len_bits = s.len_bits; buf = [] }
    ]

-- The loop with `n` rounds left.
unfoldable pub update_loop : ℕ → Sha256 → Bytes → Sha256
update_loop zero s bytes = s
update_loop (suc n) s [] = s
update_loop (suc n) s (c ∷ bytes) =
    let count = min (64 - length s.buf) (length (c ∷ bytes)) in
    update_loop n (absorb_part s (take count (c ∷ bytes))) (drop count (c ∷ bytes))

-- A round takes at least one byte, so that their number is enough rounds.
unfoldable pub sha256_update : Sha256 → Bytes → Sha256
sha256_update s bytes =
    update_loop (length bytes)
      (record { h = s.h; len_bits = (s.len_bits + length bytes * 8) % 2 ^ 64; buf = s.buf }) bytes

-- `n` bytes of `x`, the highest first.
abbrev pub big_endian : ℕ → ℕ → Bytes
big_endian zero x = []
big_endian (suc n) x = x / 2 ^ (8 * n) % 256 ∷ big_endian n x

abbrev pub output : List ℕ → Bytes
output [] = []
output (x ∷ h) = big_endian 4 x ++ output h

-- `while (s->buf_len < size) s->buf[s->buf_len++] = 0;`
abbrev pub pad_to : ℕ → Bytes → Bytes
pad_to size buf = buf ++ replicate (size - length buf) 0

-- The second half of `sha256_final`.
abbrev pub close_block : List ℕ → Bytes → ℕ → List ℕ
close_block h buf len_bits = sha256_block h (pad_to 56 buf ++ big_endian 8 len_bits)

unfoldable pub sha256_final : Sha256 → Bytes
sha256_final s =
    let buf = s.buf ++ (128 ∷ []) in
    output (elim (ltb 56 (length buf)) [
      | false ↦ close_block s.h buf s.len_bits
      | true ↦ close_block (sha256_block s.h (pad_to 64 buf)) [] s.len_bits
    ])

abbrev pub hex_digit : ℕ → ℕ
hex_digit v = if ltb v 10 then 48 + v else 97 + (v - 10)

abbrev pub hex : Bytes → Bytes
hex [] = []
hex (b ∷ bytes) = hex_digit (b / 2 ^ 4 % 16) ∷ hex_digit (b % 16) ∷ hex bytes

unfoldable pub sha256_hex : Bytes → Bytes
sha256_hex bytes = hex (sha256_final (sha256_update sha256_init bytes))
