-- ===== src/Npkg/Sha256/Update.antt =====
-- The loop of `sha256_update` (src/pkg/nprt-pkg/sha256.c) against whole blocks.
use nullprt.Base.{
  take_whole, zero, suc, [], ◌∷◌, true, false, refl, append_nil, append_assoc, length-drop,
  length-append, ◌==◌, ◌∙◌, Bool, ◌-◌, ◌<◌, ◌+◌, drop, arith, ◌≤◌, ◌≡◌, ◌++◌, take, length, Bytes,
  ℕ,
}
use nullprt.Npkg.Sha256.{update_loop, sha256_block, absorb_part, Sha256}
use nullprt.Npkg.Sha256.Stream.{absorb_all-block, drop_whole, absorb_short, absorb_all}
use mathlib.Core.Path.{ap₂, sym, ap, subst}
use native.Mathlib.Nat.{le_refl}
use native.Mathlib.Decide.{dec_lt}
use Prim.Native.Nat.{min}

pub record Absorbs (s : Sha256) (bytes : Bytes) (r : Sha256) : Type 0 where
  pub state : (r.h, r.buf) ≡ absorb_all s.h (s.buf ++ bytes)
  pub counted : r.len_bits ≡ s.len_bits
  pub room : length r.buf < 64

pub take-append-drop : (n : ℕ) (xs : Bytes) → take n xs ++ drop n xs ≡ xs
take-append-drop zero xs = refl
take-append-drop (suc n) [] = refl
take-append-drop (suc n) (x ∷ xs) = ap (λ l. x ∷ l) (take-append-drop n xs)

pub length-take : (n : ℕ) (xs : Bytes) → n ≤ length xs → length (take n xs) ≡ n
length-take zero xs h = refl
length-take (suc n) [] h = absurd (omega arith)
length-take (suc n) (x ∷ xs) h = ap suc (length-take n xs (omega arith))

absorb_part_short :
    (s : Sha256) (taken : Bytes)
    → length s.buf + length taken < 64
    → absorb_part s taken ≡ record { h = s.h; len_bits = s.len_bits; buf = s.buf ++ taken }
absorb_part_short s taken h = by_test (length (s.buf ++ taken) == 64) refl
  where
    by_test :
        (t : Bool)
        → (length (s.buf ++ taken) == 64) ≡ t
        → (elim t as (λ x. Sha256) [
          | false ↦ record { h = s.h; len_bits = s.len_bits; buf = s.buf ++ taken }
          | true ↦ record { h = sha256_block s.h (s.buf ++ taken); len_bits = s.len_bits; buf = [] }
        ])
          ≡ record { h = s.h; len_bits = s.len_bits; buf = s.buf ++ taken }
    by_test false e = refl
    by_test true e = absurd (ground (arith, length-append s.buf taken))

absorb_part_full :
    (s : Sha256) (taken : Bytes)
    → length s.buf + length taken ≡ 64
    → absorb_part s taken
      ≡ record { h = sha256_block s.h (s.buf ++ taken); len_bits = s.len_bits; buf = [] }
absorb_part_full s taken h = by_test (length (s.buf ++ taken) == 64) refl
  where
    by_test :
        (t : Bool)
        → (length (s.buf ++ taken) == 64) ≡ t
        → (elim t as (λ x. Sha256) [
          | false ↦ record { h = s.h; len_bits = s.len_bits; buf = s.buf ++ taken }
          | true ↦ record { h = sha256_block s.h (s.buf ++ taken); len_bits = s.len_bits; buf = [] }
        ])
          ≡ record { h = sha256_block s.h (s.buf ++ taken); len_bits = s.len_bits; buf = [] }
    by_test true e = refl
    by_test false e = absurd (ground (arith, length-append s.buf taken))

Absorbs-nil : (s : Sha256) → length s.buf < 64 → Absorbs s [] s
Absorbs-nil s h = record {
  state = sym (ap (absorb_all s.h) (append_nil s.buf) ∙ absorb_short (length s.buf) s.h s.buf h);
  counted = refl;
  room = h;
}

update_loop-nil : (n : ℕ) (s : Sha256) → update_loop n s [] ≡ s
unfolding update_loop
update_loop-nil zero s = refl
update_loop-nil (suc n) s = refl

-- The loop leaves the state after all whole blocks, and the rest in the buffer.
pub update_loop-Absorbs :
    (n : ℕ) (s : Sha256) (bytes : Bytes)
    → length bytes ≤ n
    → length s.buf < 64
    → Absorbs s bytes (update_loop n s bytes)
unfolding update_loop
update_loop-Absorbs zero s [] h k = Absorbs-nil s k
update_loop-Absorbs zero s (c ∷ bytes) h k = absurd (omega arith)
update_loop-Absorbs (suc n) s [] h k = Absorbs-nil s k
update_loop-Absorbs (suc n) s (c ∷ bytes) h k =
    by_size (dec_lt (length s.buf + length (c ∷ bytes)) 64) (update_loop-Absorbs n)
  where
    more : Bytes
    more = c ∷ bytes

    by_size :
        Dec (length s.buf + length more < 64)
        → ((t : Sha256) (rest : Bytes)
            → length rest ≤ n
            → length t.buf < 64
            → Absorbs t rest (update_loop n t rest))
        → let count = min (64 - length s.buf) (length more) in
          Absorbs s more (update_loop n (absorb_part s (take count more)) (drop count more))
    by_size (yes d) call =
        let t : Sha256 = record { h = s.h; len_bits = s.len_bits; buf = s.buf ++ more } in
        let count = min (64 - length s.buf) (length more) in
        let whole : count ≡ length more = omega arith in
        let taken =
          ap (λ m. take m more) whole ∙ take_whole (length more) more (le_refl (length more)) in
        let left =
          ap (λ m. drop m more) whole ∙ drop_whole (length more) more (le_refl (length more)) in
        let size = length-append s.buf more in
        subst (Absorbs s more)
          (sym (
            ap₂ (update_loop n) (ap (absorb_part s) taken ∙ absorb_part_short s more d) left
            ∙ update_loop-nil n t))
          (record {
            state = sym (absorb_short (length (s.buf ++ more)) s.h (s.buf ++ more) (omega arith));
            counted = refl;
            room = omega arith;
          })
    by_size (no d) call =
        let m = 64 - length s.buf in
        let count = min m (length more) in
        let part : count ≡ m = omega arith in
        let block = s.buf ++ take m more in
        let t : Sha256 = record { h = sha256_block s.h block; len_bits = s.len_bits; buf = [] } in
        let size = length-take m more (omega arith) in
        let sizes = length-append s.buf (take m more) in
        let fills = absorb_part_full s (take m more) (omega arith) in
        let a = call t (drop m more) (omega (arith, length-drop m more)) (omega arith) in
        subst (Absorbs s more)
          (sym (
            ap (λ j. update_loop n (absorb_part s (take j more)) (drop j more)) part
            ∙ ap (λ u. update_loop n u (drop m more)) fills))
          (record {
            state =
                a.state
                ∙ sym (
                    ap (absorb_all s.h) (
                      ap (λ l. s.buf ++ l) (sym (take-append-drop m more))
                      ∙ sym (append_assoc s.buf (take m more) (drop m more)))
                    ∙ absorb_all-block s.h block (drop m more) (omega arith));
            counted = a.counted;
            room = a.room;
          })
