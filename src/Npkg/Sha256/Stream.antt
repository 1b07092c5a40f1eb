-- ===== src/Npkg/Sha256/Stream.antt =====
-- The buffered reading of sha256.c (src/pkg/nprt-pkg) against blocks cut from the whole message.
use nullprt.Base.{
  zero, suc, [], ◌∷◌, true, false, refl, append_nil, ap₂, ◌+◌, length-drop, length-append, ◌∙◌, ◌-◌,
  ap, ◌++◌, sym, arith, Bool, ◌≡◌, ◌<◌, take, drop, ◌≤◌, ltb, length, List, Bytes, ℕ,
}
use native.Mathlib.Decide.{dec_lt}
use nullprt.Npkg.Sha256.{sha256_block}
use native.Mathlib.Nat.{le_refl}

-- The state after the whole blocks of `bytes`, and the bytes that are left; `n` bounds the blocks.
abbrev pub absorb : ℕ → List ℕ → Bytes → List ℕ × Bytes
absorb zero h bytes = (h, bytes)
absorb (suc n) h bytes = elim (ltb (length bytes) 64) [
  | true ↦ (h, bytes)
  | false ↦ absorb n (sha256_block h (take 64 bytes)) (drop 64 bytes)
]

abbrev pub absorb_all : List ℕ → Bytes → List ℕ × Bytes
absorb_all h bytes = absorb (length bytes) h bytes

-- A list of less than a block stays as it is.
pub absorb_short :
    (n : ℕ) (h : List ℕ) (bytes : Bytes) → length bytes < 64 → absorb n h bytes ≡ (h, bytes)
absorb_short zero h bytes k = refl
absorb_short (suc n) h bytes k = by_test (ltb (length bytes) 64) (ground arith)
  where
    by_test :
        (t : Bool)
        → t ≡ true
        → (elim t [
          | true ↦ (h, bytes)
          | false ↦ absorb n (sha256_block h (take 64 bytes)) (drop 64 bytes)
        ])
          ≡ (h, bytes)
    by_test true e = refl
    by_test false e = absurd (ground arith)

pub absorb_round :
    (n : ℕ) (h : List ℕ) (bytes : Bytes)
    → 64 ≤ length bytes
    → absorb (suc n) h bytes ≡ absorb n (sha256_block h (take 64 bytes)) (drop 64 bytes)
absorb_round n h bytes k = by_test (ltb (length bytes) 64) (ground arith)
  where
    by_test :
        (t : Bool)
        → t ≡ false
        → (elim t [
          | true ↦ (h, bytes)
          | false ↦ absorb n (sha256_block h (take 64 bytes)) (drop 64 bytes)
        ])
          ≡ absorb n (sha256_block h (take 64 bytes)) (drop 64 bytes)
    by_test true e = absurd (ground arith)
    by_test false e = refl

-- Any bound that is large enough gives the same.
absorb_bound :
    (n m : ℕ) (h : List ℕ) (bytes : Bytes)
    → length bytes ≤ n
    → length bytes ≤ m
    → absorb n h bytes ≡ absorb m h bytes
absorb_bound zero m h bytes p q = sym (absorb_short m h bytes (omega arith))
absorb_bound (suc n) zero h bytes p q = absorb_short (suc n) h bytes (omega arith)
absorb_bound (suc n) (suc m) h bytes p q =
    by_size (dec_lt (length bytes) 64)
      (absorb_bound n m (sha256_block h (take 64 bytes)) (drop 64 bytes))
  where
    by_size :
        Dec (length bytes < 64)
        → (length (drop 64 bytes) ≤ n
            → length (drop 64 bytes) ≤ m
            → absorb n (sha256_block h (take 64 bytes)) (drop 64 bytes)
              ≡ absorb m (sha256_block h (take 64 bytes)) (drop 64 bytes))
        → absorb (suc n) h bytes ≡ absorb (suc m) h bytes
    by_size (yes k) r = absorb_short (suc n) h bytes k ∙ sym (absorb_short (suc m) h bytes k)
    by_size (no k) r =
        let l = length-drop 64 bytes in
        absorb_round n h bytes (omega arith)
        ∙ r (omega arith) (omega arith)
        ∙ sym (absorb_round m h bytes (omega arith))

take-append :
    (n : ℕ) (xs ys : Bytes) → length xs ≤ n → take n (xs ++ ys) ≡ xs ++ take (n - length xs) ys
take-append n [] ys h = let e : n - 0 ≡ n = omega arith in ap (λ k. take k ys) (sym e)
take-append zero (x ∷ xs) ys h = absurd (omega arith)
take-append (suc n) (x ∷ xs) ys h =
    let e : suc n - suc (length xs) ≡ n - length xs = omega arith in
    ap (λ l. x ∷ l) (take-append n xs ys (omega arith) ∙ ap (λ k. xs ++ take k ys) (sym e))

drop-append : (n : ℕ) (xs ys : Bytes) → length xs ≤ n → drop n (xs ++ ys) ≡ drop (n - length xs) ys
drop-append n [] ys h = let e : n - 0 ≡ n = omega arith in ap (λ k. drop k ys) (sym e)
drop-append zero (x ∷ xs) ys h = absurd (omega arith)
drop-append (suc n) (x ∷ xs) ys h =
    let e : suc n - suc (length xs) ≡ n - length xs = omega arith in
    drop-append n xs ys (omega arith) ∙ ap (λ k. drop k ys) (sym e)

pub drop_whole : (n : ℕ) (xs : Bytes) → length xs ≤ n → drop n xs ≡ []
drop_whole zero [] h = refl
drop_whole zero (x ∷ xs) h = absurd (omega arith)
drop_whole (suc n) [] h = refl
drop_whole (suc n) (x ∷ xs) h = drop_whole n xs (omega arith)

-- A full block at the front.
pub absorb_all-block :
    (h : List ℕ) (block rest : Bytes)
    → length block ≡ 64
    → absorb_all h (block ++ rest) ≡ absorb_all (sha256_block h block) rest
absorb_all-block h block rest k =
    let l = length-append block rest in
    let e : 64 - length block ≡ 0 = omega arith in
    absorb_bound (length (block ++ rest)) (suc (length rest + 64)) h (block ++ rest) (omega arith)
      (omega arith)
    ∙ absorb_round (length rest + 64) h (block ++ rest) (omega arith)
    ∙ ap₂ (absorb (length rest + 64))
        (ap (sha256_block h) (
          take-append 64 block rest (omega arith)
          ∙ ap (λ n. block ++ take n rest) e
          ∙ append_nil block))
        (drop-append 64 block rest (omega arith) ∙ ap (λ n. drop n rest) e)
    ∙ absorb_bound (length rest + 64) (length rest) (sha256_block h block) rest (omega arith)
        (le_refl (length rest))
