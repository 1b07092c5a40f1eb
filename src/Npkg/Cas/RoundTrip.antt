-- ===== src/Npkg/Cas/RoundTrip.antt =====
-- What `rle_compress` (src/pkg/nprt-pkg/cas.c) writes can be read back, and fits its buffer.
use nullprt.Npkg.Cas.{extend, rle_compress, rle_loop, longest_run, Run}
use nullprt.Base.{
  zero, suc, [], ◌∷◌, true, false, refl, sym, ltb, ◌∙◌, ◌&&◌, ◌==◌, ap₂, ◌%◌, ap, Bool, ◌+◌, arith,
  ◌<◌, ◌++◌, ◌*◌, ◌≤◌, ◌≡◌, replicate, length, List, ℕ,
}
use native.Mathlib.Nat.{le_refl}

-- The reader that the format calls for: a counter, then the byte it repeats.
abbrev pub expand : List ℕ → List ℕ
expand [] = []
expand (n ∷ []) = []
expand (n ∷ b ∷ code) = replicate n b ++ expand code

-- The code is pairs of a counter and a byte, and each counter is from 1 to 255.
abbrev pub HasRuns : List ℕ → Type 0
HasRuns [] = Unit
HasRuns (n ∷ []) = ⊥
HasRuns (n ∷ b ∷ code) = (1 ≤ n) × (n ≤ longest_run) × HasRuns code

replicate-append-cons :
    (n b : ℕ) (bytes : List ℕ) → replicate n b ++ (b ∷ bytes) ≡ replicate (n + 1) b ++ bytes
replicate-append-cons zero b bytes = refl
replicate-append-cons (suc n) b bytes =
    let e : suc (n + 1) ≡ suc n + 1 = omega arith in
    ap (λ l. b ∷ l) (replicate-append-cons n b bytes) ∙ ap (λ k. replicate k b ++ bytes) e

-- The run and the rest are the bytes read before, and those that were given.
abbrev IsExtended : ℕ → ℕ → List ℕ → Run → Type 0
IsExtended b run bytes r =
    (replicate r.run b ++ r.rest ≡ replicate run b ++ bytes)
    × ((r.run ≤ longest_run) × ((run ≤ r.run) × (length r.rest ≤ length bytes)))

extend-IsExtended :
    (b run : ℕ) (bytes : List ℕ) → run ≤ longest_run → IsExtended b run bytes (extend b run bytes)
unfolding extend
extend-IsExtended b run [] h = (refl, (h, (omega arith, omega arith)))
extend-IsExtended b run (x ∷ xs) h =
    by_test (x == b && ltb run longest_run) refl (λ k. extend-IsExtended b (run + 1) xs k)
  where
    by_test :
        (t : Bool)
        → (x == b && ltb run longest_run) ≡ t
        → (run + 1 ≤ longest_run → IsExtended b (run + 1) xs (extend b (run + 1) xs))
        → IsExtended b run
            (x ∷ xs)
            (elim t [ false ↦ record { run = run; rest = x ∷ xs } | true ↦ extend b (run + 1) xs ])
    by_test false e later = (refl, (h, (omega arith, omega arith)))
    by_test true e later =
        let same : x ≡ b = ground arith in
        let more = later (ground arith) in
        (
          more.0
              ∙ sym (replicate-append-cons run b xs)
              ∙ ap (λ y. replicate run b ++ (y ∷ xs)) (sym same),
          (more.1.0, (omega (arith, more.1.1.0), omega (arith, more.1.1.1))),
        )

rle_loop_lem :
    (n : ℕ) (bytes : List ℕ)
    → length bytes ≤ n
    → (expand (rle_loop n bytes) ≡ bytes)
      × (HasRuns (rle_loop n bytes) × (length (rle_loop n bytes) ≤ 2 * length bytes))
unfolding rle_loop
rle_loop_lem zero [] h = (refl, (tt, omega arith))
rle_loop_lem zero (b ∷ bytes) h = absurd (omega arith)
rle_loop_lem (suc n) [] h = (refl, (tt, omega arith))
rle_loop_lem (suc n) (b ∷ bytes) h =
    let r = extend b 1 bytes in
    let first = extend-IsExtended b 1 bytes (omega arith) in
    let others = rle_loop_lem n r.rest (omega (arith, first.1.1.1)) in
    let count : r.run % 256 ≡ r.run = omega (arith, first.1.0) in
    (
      ap₂ (λ k l. replicate k b ++ l) count others.0 ∙ first.0,
      (
        (omega (arith, count, first.1.1.0), omega (arith, count, first.1.0), others.1.0),
        omega (arith, others.1.1, first.1.1.1),
      ),
    )

-- Every input is read back from its code. The code consists of counters from 1 to 255, each before
-- the byte it repeats, and is at most twice as long as the input, so that it fits its buffer.
pub rle_compress_lem :
    (bytes : List ℕ)
    → (expand (rle_compress bytes) ≡ bytes)
      × (HasRuns (rle_compress bytes) × (length (rle_compress bytes) < length bytes * 2 + 1))
unfolding rle_compress
rle_compress_lem bytes =
    let l = rle_loop_lem (length bytes) bytes (le_refl (length bytes)) in
    (l.0, (l.1.0, omega (arith, l.1.1)))
