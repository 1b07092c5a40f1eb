-- ===== src/Fmt.antt =====
-- The passes of the formatter `nprt-fmt` over a text (src/fmt/nprt-fmt/format_core.c). A
-- text has no null byte; what is read behind its end is 0. `o` is the number of bytes in `tmp`.
pub mod Spacing
use nullprt.Base.{
  leb, ◌||◌, ◌+◌, not, ◌==◌, ◌&&◌, map, ltb, if◌then◌else◌, Bytes, Bool, zero, suc, [], ◌∷◌, true,
  false, none, some, inl, inr, refl, ℕ,
}

abbrev pub tmp_size : ℕ
tmp_size = 65536

abbrev pub tab_to_blank : ℕ → ℕ
tab_to_blank c = if c == b'\t' then b' ' else c

unfoldable pub count_byte : ℕ → Bytes → ℕ
count_byte b [] = 0
count_byte b (c ∷ s) = let rest = count_byte b s in if c == b then suc rest else rest

-- The text, and `*detected_tab_indent`.
unfoldable pub normalize_indentation : Bytes → Bytes × Bool
normalize_indentation text =
    (map tab_to_blank text, ltb (count_byte b' ' text) (count_byte b'\t' text))

abbrev pub at_edge : ℕ → Bool
at_edge c = c == b' ' || c == b'\n'

abbrev pub is_operator : ℕ → Bool
is_operator c = c == b'+' || c == b'-' || c == b'*' || c == b'/' || c == b'=' || c == b'|'

-- The byte behind is read as 0 at the end of the text.
abbrev pub next_byte : Bytes → ℕ
next_byte [] = 0
next_byte (c ∷ s) = c

-- An operator that is to stand between blanks.
unfoldable pub is_spaced : ℕ → ℕ → Bytes → Bool
is_spaced prev c s =
    is_operator c && not (at_edge prev) && not (next_byte s == 0) && not (at_edge (next_byte s))

unfoldable pub is_unary : ℕ → Bytes → Bool
is_unary c s = (c == b'!' || c == b'~') && next_byte s == b' '

-- The loop, with the byte before, for which a blank stands at the start; `skip` while blanks behind a unary
-- operator are passed over.
unfoldable pub spacing_loop : Bool → ℕ → ℕ → Bytes → Bytes
spacing_loop skip o prev [] = []
spacing_loop skip o prev (c ∷ s) = elim (ltb (o + 4) tmp_size) [
  | false ↦ []
  | true ↦ elim (skip && c == b' ') [
    | true ↦ spacing_loop true o c s
    | false ↦ elim (is_spaced prev c s) [
      | true ↦ b' ' ∷ c ∷ b' ' ∷ spacing_loop false (o + 3) c s
      | false ↦ c ∷ spacing_loop (is_unary c s) (o + 1) c s
    ]
  ]
]

unfoldable pub apply_operator_spacing : Bytes → Bytes
apply_operator_spacing text = spacing_loop false 0 b' ' text

-- The loop of `fmt_wrap_long_lines`; a width is not negative.
unfoldable pub wrap_loop : ℕ → ℕ → ℕ → Bytes → Bytes
wrap_loop max_width o col [] = []
wrap_loop max_width o col (c ∷ s) = elim (ltb (o + 4) tmp_size) [
  | false ↦ []
  | true ↦
      let at = if c == b'\n' then 0 else col + 1 in
      elim (leb max_width at && c == b' ') [
        | true ↦ c ∷ b'\n' ∷ b' ' ∷ b' ' ∷ wrap_loop max_width (o + 4) 2 s
        | false ↦ c ∷ wrap_loop max_width (o + 1) at s
      ]
]

unfoldable pub wrap_long_lines : Bytes → ℕ → Bytes
wrap_long_lines text max_width = wrap_loop max_width 0 0 text
