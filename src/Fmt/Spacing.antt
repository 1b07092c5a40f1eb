-- ===== src/Fmt/Spacing.antt =====
-- What the passes of the formatter keep (src/fmt/nprt-fmt/format_core.c).
use nullprt.Fmt.{
  apply_operator_spacing, spacing_loop, wrap_long_lines, wrap_loop, is_spaced, is_unary, at_edge,
  tmp_size,
}
use nullprt.Base.{
  suc, [], ◌∷◌, true, false, refl, ◌&&◌, leb, sym, ltb, ◌∙◌, ◌==◌, ap, ◌≡◌, ◌≤◌, arith, ◌*◌, length,
  ◌<◌, ◌+◌, if◌then◌else◌, Bytes, Bool, ℕ, test_cases,
}

-- The bytes that are neither blanks nor newlines.
abbrev pub visible : Bytes → Bytes
visible [] = []
visible (c ∷ s) = let rest = visible s in if at_edge c then rest else c ∷ rest

-- The ways of a byte through the loop.
spacing_cases :
    (P : Bytes → Type 0) (skip : Bool) (o prev c : ℕ) (s : Bytes)
    → (tmp_size ≤ o + 4 → P [])
    → (c ≡ b' ' → P (spacing_loop true o c s))
    → (o + 4 < tmp_size → P (b' ' ∷ c ∷ b' ' ∷ spacing_loop false (o + 3) c s))
    → (o + 4 < tmp_size → P (c ∷ spacing_loop (is_unary c s) (o + 1) c s))
    → P (spacing_loop skip o prev (c ∷ s))
unfolding spacing_loop
spacing_cases P skip o prev c s full passed spaced plain =
    test_cases (λ b. P b) (ltb (o + 4) tmp_size) _ []
      (λ e.
        test_cases (λ b. P b) (skip && c == b' ') (spacing_loop true o c s) _
          (λ f. passed (ground (arith, f)))
          (λ f.
            test_cases (λ b. P b) (is_spaced prev c s)
              (b' ' ∷ c ∷ b' ' ∷ spacing_loop false (o + 3) c s)
              (c ∷ spacing_loop (is_unary c s) (o + 1) c s) (λ g. spaced (ground (arith, e)))
              (λ g. plain (ground (arith, e)))))
      (λ e. full (ground (arith, e)))

spacing_loop-length :
    (skip : Bool) (o prev : ℕ) (s : Bytes)
    → o < tmp_size
    → o + length (spacing_loop skip o prev s) < tmp_size
spacing_loop-length skip o prev [] h = unfold spacing_loop in omega arith
spacing_loop-length skip o prev (c ∷ s) h =
    spacing_cases (λ t. o + length t < tmp_size) skip o prev c s (λ e. omega arith)
      (λ e. spacing_loop-length true o c s h)
      (λ e. omega (arith, spacing_loop-length false (o + 3) c s (omega arith)))
      (λ e. omega (arith, spacing_loop-length (is_unary c s) (o + 1) c s (omega arith)))

spacing_loop-grows :
    (skip : Bool) (o prev : ℕ) (s : Bytes) → length (spacing_loop skip o prev s) ≤ 3 * length s
spacing_loop-grows skip o prev [] = unfold spacing_loop in omega arith
spacing_loop-grows skip o prev (c ∷ s) =
    spacing_cases (λ t. length t ≤ 3 * suc (length s)) skip o prev c s (λ e. omega arith)
      (λ e. omega (arith, spacing_loop-grows true o c s))
      (λ e. omega (arith, spacing_loop-grows false (o + 3) c s))
      (λ e. omega (arith, spacing_loop-grows (is_unary c s) (o + 1) c s))

-- A byte before the same rest.
visible_cons :
    (c : ℕ) {l m : Bytes}
    → l ≡ m
    → (if at_edge c then l else c ∷ l) ≡ (if at_edge c then m else c ∷ m)
visible_cons c e = ap (λ l. if at_edge c then l else c ∷ l) e

spacing_loop-visible :
    (skip : Bool) (o prev : ℕ) (s : Bytes)
    → o + 3 * length s + 4 ≤ tmp_size
    → visible (spacing_loop skip o prev s) ≡ visible s
spacing_loop-visible skip o prev [] h = unfold spacing_loop in refl
spacing_loop-visible skip o prev (c ∷ s) h =
    spacing_cases (λ t. visible t ≡ visible (c ∷ s)) skip o prev c s (λ e. absurd (omega arith))
      (λ e.
        spacing_loop-visible true o c s (omega arith)
        ∙ ap (λ d. if at_edge d then visible s else d ∷ visible s) (sym e))
      (λ e. visible_cons c (spacing_loop-visible false (o + 3) c s (omega arith)))
      (λ e. visible_cons c (spacing_loop-visible (is_unary c s) (o + 1) c s (omega arith)))

wrap_cases :
    (P : Bytes → Type 0) (w o col c : ℕ) (s : Bytes)
    → (tmp_size ≤ o + 4 → P [])
    → (o + 4 < tmp_size → P (c ∷ b'\n' ∷ b' ' ∷ b' ' ∷ wrap_loop w (o + 4) 2 s))
    → (o + 4 < tmp_size → P (c ∷ wrap_loop w (o + 1) (if c == b'\n' then 0 else col + 1) s))
    → P (wrap_loop w o col (c ∷ s))
unfolding wrap_loop
wrap_cases P w o col c s full wrapped plain =
    test_cases (λ b. P b) (ltb (o + 4) tmp_size) _ []
      (λ e.
        test_cases (λ b. P b) (leb w (if c == b'\n' then 0 else col + 1) && c == b' ')
          (c ∷ b'\n' ∷ b' ' ∷ b' ' ∷ wrap_loop w (o + 4) 2 s)
          (c ∷ wrap_loop w (o + 1) (if c == b'\n' then 0 else col + 1) s)
          (λ f. wrapped (ground (arith, e))) (λ f. plain (ground (arith, e))))
      (λ e. full (ground (arith, e)))

wrap_loop-length :
    (w o col : ℕ) (s : Bytes) → o < tmp_size → o + length (wrap_loop w o col s) < tmp_size
wrap_loop-length w o col [] h = unfold wrap_loop in omega arith
wrap_loop-length w o col (c ∷ s) h =
    wrap_cases (λ t. o + length t < tmp_size) w o col c s (λ e. omega arith)
      (λ e. omega (arith, wrap_loop-length w (o + 4) 2 s (omega arith)))
      (λ e.
        omega
          (arith, wrap_loop-length w (o + 1) (if c == b'\n' then 0 else col + 1) s (omega arith)))

wrap_loop-visible :
    (w o col : ℕ) (s : Bytes)
    → o + 4 * length s + 4 ≤ tmp_size
    → visible (wrap_loop w o col s) ≡ visible s
wrap_loop-visible w o col [] h = unfold wrap_loop in refl
wrap_loop-visible w o col (c ∷ s) h =
    wrap_cases (λ t. visible t ≡ visible (c ∷ s)) w o col c s (λ e. absurd (omega arith))
      (λ e. visible_cons c (wrap_loop-visible w (o + 4) 2 s (omega arith)))
      (λ e.
        visible_cons c
          (wrap_loop-visible w (o + 1) (if c == b'\n' then 0 else col + 1) s (omega arith)))

-- The spacing of operators and the wrapping of lines, one after the other, write less than the 65536 bytes
-- of their buffers for every text, and in a text of at most 5460 bytes they change nothing but blanks
-- and newlines.
pub spacing_passes_lem :
    (text : Bytes) (max_width : ℕ)
    → let spaced = apply_operator_spacing text in
      let wrapped = wrap_long_lines spaced max_width in
      (length spaced < tmp_size)
      × (length wrapped < tmp_size)
      × (length text ≤ 5460 → visible wrapped ≡ visible text)
unfolding apply_operator_spacing wrap_long_lines
spacing_passes_lem text w =
    let spaced = spacing_loop false 0 b' ' text in
    (
      omega (arith, spacing_loop-length false 0 b' ' text (omega arith)),
      omega (arith, wrap_loop-length w 0 0 spaced (omega arith)),
      λ h.
          wrap_loop-visible w 0 0 spaced (omega (arith, spacing_loop-grows false 0 b' ' text))
          ∙ spacing_loop-visible false 0 b' ' text (omega arith),
    )
