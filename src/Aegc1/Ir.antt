-- ===== src/Aegc1/Ir.antt =====
-- The intermediate form of `aegc1` (src/self/aegc1/ir: nprt_ir.c, protect_passes.c). `realloc`
-- finds memory.
pub mod Lowered
use nullprt.Base.{
  zero, suc, [], ◌∷◌, true, false, none, some, inl, inr, ℕ, ◌+◌, ◌*◌, ◌%◌, ◌^◌, bit_xor, Bool, not,
  ◌&&◌, ◌||◌, ◌==◌, List, map, if◌then◌else◌, Bytes, codes, starts_with, length, all,
}
use nullprt.Aegc1.Ast.{AstItem, AstModule, ItemKind, limit_ok}
use nullprt.Aegc1.Cursor.{u32}
use nullprt.Aegc1.Semantic.{is_lowered}
use nullprt.Aegc1.Token.{StringView}

pub record IrFunction : Type 0 where
  pub name : StringView
  pub source_kind : ItemKind
  pub is_generic_instance : Bool
  pub is_result_like : Bool
  pub is_async : Bool
  pub is_generator : Bool
  pub is_coroutine : Bool
  pub has_contract : Bool
  pub has_invariant : Bool
  pub cfg_enabled : Bool
  pub feature_bits : ℕ
  pub nested_pattern_depth_limit : ℕ
  pub diagnostics_emitted : ℕ
  pub basic_blocks : ℕ
  pub flattened_cfg : Bool
  pub opaque_predicate : Bool
  pub string_obfuscated : Bool
  pub antidebug_guard : Bool
  pub integrity_tag : ℕ

pub record IrModule : Type 0 where
  pub ir_version : ℕ
  pub pointer_bits : ℕ
  pub feature_bits : ℕ
  pub nested_pattern_depth_limit : ℕ
  pub fns : List IrFunction

-- `fnv1a64_sv`, from the state `h` on.
unfoldable pub fnv1a64_from : ℕ → Bytes → ℕ
fnv1a64_from h [] = h
fnv1a64_from h (c ∷ s) = fnv1a64_from (bit_xor h c * 1099511628211 % 2 ^ 64) s

unfoldable pub fnv1a64 : Bytes → ℕ
unfolding fnv1a64_from
fnv1a64 s = fnv1a64_from 1469598103934665603 s

unfoldable pub lower_item : ℕ → AstItem → IrFunction
lower_item limit it = record {
  name = it.name;
  source_kind = it.kind;
  is_generic_instance = it.is_generic;
  is_result_like = starts_with (codes "Result") it.name.bytes;
  is_async = it.is_async;
  is_generator = it.is_generator;
  is_coroutine = it.is_coroutine;
  has_contract = it.has_contract;
  has_invariant = it.has_invariant;
  cfg_enabled = not it.has_cfg;
  feature_bits = it.feature_bits;
  nested_pattern_depth_limit = limit;
  diagnostics_emitted = 0;
  basic_blocks = 1;
  flattened_cfg = false;
  opaque_predicate = false;
  string_obfuscated = false;
  antidebug_guard = false;
  integrity_tag = bit_xor (fnv1a64 it.name.bytes) 0x9E3779B97F4A7C15;
}

-- The loop of `a1_ir_lower`: imports and macros are passed over.
unfoldable pub lower_items : ℕ → List AstItem → List IrFunction
lower_items limit [] = []
lower_items limit (it ∷ items) =
    let rest = lower_items limit items in if is_lowered it then lower_item limit it ∷ rest else rest

unfoldable pub ir_lower : AstModule → IrModule
unfolding lower_items
ir_lower ast = record {
  ir_version = 1;
  pointer_bits = 64;
  feature_bits = ast.feature_bits;
  nested_pattern_depth_limit = ast.nested_pattern_depth_limit;
  fns = lower_items ast.nested_pattern_depth_limit ast.items;
}

abbrev pub fn_ok : IrFunction → Bool
fn_ok f = not (f.is_async && not f.cfg_enabled) && not (f.has_contract && length f.name.bytes == 0)

-- `a1_ir_validate` of a module that is there.
unfoldable pub ir_validate : IrModule → Bool
ir_validate ir =
    not (not (ir.ir_version == 1) || (not (ir.pointer_bits == 64) || length ir.fns == 0))
    && (limit_ok ir.nested_pattern_depth_limit && all fn_ok ir.fns)

pub record ProtectOptions : Type 0 where
  pub enable : Bool
  pub flatten_cfg : Bool
  pub opaque_predicate : Bool
  pub string_obfuscation : Bool
  pub integrity_hash : Bool
  pub antidebug : Bool

-- `a1_protect_options_default`; the profile's name is not read.
abbrev pub default_options : ProtectOptions
default_options = record {
  enable = true;
  flatten_cfg = true;
  opaque_predicate = true;
  string_obfuscation = true;
  integrity_hash = true;
  antidebug = true;
}

-- The passes in their order; `uint32_t basic_blocks` wraps around.
unfoldable pub protect_fn : ProtectOptions → IrFunction → IrFunction
protect_fn opt f = if not f.cfg_enabled then f else record f {
  flattened_cfg = opt.flatten_cfg || f.flattened_cfg;
  opaque_predicate = opt.opaque_predicate || f.opaque_predicate;
  basic_blocks =
      let flat = if opt.flatten_cfg then u32 (f.basic_blocks + 2) else f.basic_blocks in
      if opt.opaque_predicate then u32 (flat + 1) else flat;
  string_obfuscated = opt.string_obfuscation || f.string_obfuscated;
  antidebug_guard = opt.antidebug || f.antidebug_guard;
  integrity_tag =
      if opt.integrity_hash then bit_xor f.integrity_tag 0xA5A5A5A5A5A5A5A5 else f.integrity_tag;
}

-- `a1_ir_apply_protection_passes`
unfoldable pub apply_protection_passes : ProtectOptions → IrModule → IrModule
apply_protection_passes opt ir =
    if not opt.enable then ir else record ir { fns = map (protect_fn opt) ir.fns }
