-- ===== src/Npkg/Cas.antt =====
-- The coding of stored packages (src/pkg/nprt-pkg/cas.c, `rle_compress`). The buffer that the source
-- takes from `malloc` is the list that is built; its size is stated in the child.
pub mod RoundTrip
use nullprt.Base.{
  zero, suc, [], ◌∷◌, true, false, none, some, inl, inr, refl, ℕ, ◌+◌, ◌%◌, Bool, ◌&&◌, List, ◌==◌,
  ltb, length,
}

abbrev pub longest_run : ℕ
longest_run = 255

pub record Run : Type 0 where
  pub run : ℕ
  pub rest : List ℕ

-- The inner loop: `run` bytes `b` are read, and `rest` follows them.
unfoldable pub extend : ℕ → ℕ → List ℕ → Run
extend b run [] = record { run = run; rest = [] }
extend b run (x ∷ xs) = elim (x == b && ltb run longest_run) [
  | false ↦ record { run = run; rest = x ∷ xs }
  | true ↦ extend b (run + 1) xs
]

-- The outer loop with `n` rounds left. The counter is written as an `unsigned char`.
unfoldable pub rle_loop : ℕ → List ℕ → List ℕ
rle_loop zero bytes = []
rle_loop (suc n) [] = []
rle_loop (suc n) (b ∷ bytes) = let r = extend b 1 bytes in r.run % 256 ∷ b ∷ rle_loop n r.rest

-- A round reads at least one byte, so that the number of bytes is enough rounds.
unfoldable pub rle_compress : List ℕ → List ℕ
unfolding rle_loop
rle_compress bytes = rle_loop (length bytes) bytes
