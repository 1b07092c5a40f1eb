-- ===== src/Tests/Fmt.antt =====
-- The passes of the formatter at small texts.
use nullprt.Fmt.{
  apply_operator_spacing, count_byte, is_spaced, is_unary, normalize_indentation, spacing_loop,
  wrap_long_lines, wrap_loop, tmp_size,
}
use nullprt.Base.{true, refl, codes, length, ◌≡◌, ◌<◌, ◌≤◌}
use nullprt.Fmt.Spacing.{spacing_passes_lem, visible}

spacing_passes_lem_example :
    let spaced = apply_operator_spacing (codes "a+b ! c") in
    let wrapped = wrap_long_lines spaced 4 in
    (length spaced < tmp_size)
    × (length wrapped < tmp_size)
    × (length (codes "a+b ! c") ≤ 5460 → visible wrapped ≡ visible (codes "a+b ! c"))
spacing_passes_lem_example = spacing_passes_lem (codes "a+b ! c") 4

sum : apply_operator_spacing (codes "a+b ! c") ≡ codes "a + b !c"
unfolding apply_operator_spacing spacing_loop is_spaced is_unary
sum = refl

-- An operator of two bytes is taken apart.
equal : apply_operator_spacing (codes "a==b") ≡ codes "a =  = b"
unfolding apply_operator_spacing spacing_loop is_spaced is_unary
equal = refl

wrapped_line : wrap_long_lines (codes "aaa bbb") 4 ≡ codes "aaa \n  bbb"
unfolding wrap_long_lines wrap_loop
wrapped_line = refl

tabs : normalize_indentation (codes "\tx") ≡ (codes " x", true)
unfolding normalize_indentation count_byte
tabs = refl
