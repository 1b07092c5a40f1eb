-- ===== src/Aegc1/Features.antt =====
-- `A1AstFeatureBits` (src/self/aegc1/frontend/ast.h) as masks: a set of features is the `uint64_t` mask of their bits. What puts a feature into a module's mask is the
-- table of `infer_feature_bits_from_source` (frontend/parser.c).
pub mod Laws
use Prim.Native.String.{String}
use nullprt.Base.{
  ℕ, ◌+◌, ◌^◌, bit_and, bit_or, Bool, not, ◌==◌, List, [], ◌∷◌, if◌then◌else◌, Bytes, codes, occurs,
  any,
}

-- `(bits & feature) != 0`
unfoldable pub has : ℕ → ℕ → Bool
has bits k = not (bit_and bits (2 ^ k) == 0)

-- `if (test) bits |= feature`
unfoldable pub add_if : Bool → ℕ → ℕ → ℕ
add_if test k bits = if test then bit_or bits (2 ^ k) else bits

-- The words of the source text that put each feature into the mask, in the order of the bits.
abbrev pub feature_words : List (List String)
feature_words =
    ("dependent" ∷ "type-level" ∷ [])
    ∷ ("refine" ∷ "where " ∷ [])
    ∷ ("linear" ∷ [])
    ∷ ("effect" ∷ [])
    ∷ ("handler" ∷ "bubble" ∷ [])
    ∷ ("hkt" ∷ "constructor" ∷ [])
    ∷ ("exists" ∷ [])
    ∷ ("session" ∷ "protocol" ∷ [])
    ∷ ("proof" ∷ "theorem" ∷ [])
    ∷ ("contract" ∷ "requires" ∷ [])
    ∷ ("invariant" ∷ [])
    ∷ ("borrow" ∷ "resource" ∷ [])
    ∷ ("quantity" ∷ [])
    ∷ ("graded" ∷ "security_level" ∷ [])
    ∷ ("row" ∷ [])
    ∷ ("recursive" ∷ "mu " ∷ [])
    ∷ ("associated" ∷ [])
    ∷ ("size" ∷ "bound" ∷ [])
    ∷ ("const " ∷ "value-dependent" ∷ [])
    ∷ ("match" ∷ [])
    ∷ (".." ∷ "range" ∷ [])
    ∷ ("nested_pattern_depth" ∷ [])
    ∷ ("async" ∷ "cancel" ∷ [])
    ∷ ("yield" ∷ "resume" ∷ [])
    ∷ ("coroutine" ∷ "scheduler" ∷ [])
    ∷ ("macro_rules" ∷ "recursion_limit" ∷ [])
    ∷ ("proc_macro" ∷ "compiler_interface" ∷ [])
    ∷ ("hygiene" ∷ [])
    ∷ ("reflect" ∷ "comptime" ∷ [])
    ∷ ("ast_validate" ∷ "syntax_tree" ∷ [])
    ∷ []

abbrev pub mentions : Bytes → List String → Bool
mentions src words = any (λ w. occurs (codes w) src) words

unfoldable pub infer_rows : Bytes → ℕ → List (List String) → ℕ → ℕ
infer_rows src k [] bits = bits
infer_rows src k (words ∷ rows) bits =
    infer_rows src (k + 1) rows (add_if (mentions src words) k bits)

unfoldable pub infer_feature_bits : Bytes → ℕ
infer_feature_bits src = infer_rows src 0 feature_words 0
