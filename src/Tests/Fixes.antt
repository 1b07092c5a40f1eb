-- ===== src/Tests/Fixes.antt =====
-- The conflicts of three fixes.
use nullprt.Aegc1.Fixes.{count_conflicts, count_from, count_with, FixRange}
use nullprt.Base.{[], ◌∷◌, refl, ◌≡◌, List, ℕ}

abbrev range : ℕ → ℕ → FixRange
range start end = record { start = start; end = end }

abbrev fixes : List FixRange
fixes = range 0 4 ∷ range 4 9 ∷ range 8 12 ∷ []

one_conflict : count_conflicts fixes ≡ 1
unfolding count_conflicts count_from count_with
one_conflict = refl
