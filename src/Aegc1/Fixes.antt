-- ===== src/Aegc1/Fixes.antt =====
-- The conflicts between fixes (src/self/aegc1/diag/autofix_conflict.c). The ranges are a list, and the
-- null pointer in place of them is left out.
pub mod Conflicts
use nullprt.Base.{
  ◌+◌, leb, if◌then◌else◌, List, Bool, zero, suc, [], ◌∷◌, true, false, none, some, inl, inr, refl,
  ℕ,
}

pub record FixRange : Type 0 where
  pub start : ℕ
  pub end : ℕ

abbrev pub fix_conflict : FixRange → FixRange → Bool
fix_conflict a b = if leb a.end b.start then false else if leb b.end a.start then false else true

-- The inner loop, for the range that stands first.
unfoldable pub count_with : FixRange → List FixRange → ℕ → ℕ
count_with a [] n = n
count_with a (b ∷ ranges) n = count_with a ranges (if fix_conflict a b then n + 1 else n)

-- The outer loop.
unfoldable pub count_from : List FixRange → ℕ → ℕ
count_from [] n = n
count_from (a ∷ ranges) n = count_from ranges (count_with a ranges n)

unfoldable pub count_conflicts : List FixRange → ℕ
count_conflicts ranges = count_from ranges 0
