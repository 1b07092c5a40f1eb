-- ===== src/Aegc1/Driver/Accepts.antt =====
-- Which sources `aegc1` compiles (driver/main.c).
use nullprt.Base.{
  [], ◌∷◌, true, false, inl, inr, refl, ◌+◌, ℕ, ◌∙◌, ◌==◌, length, codes, if◌then◌else◌, ◌||◌, ◌&&◌,
  Bool-cases, any, all, All, Bytes, List, not, arith, Bool, ◌≡◌,
}
use nullprt.Aegc1.Module.Items.{parse_module-IsParsedModule, named, IsParsed}
use nullprt.Aegc1.Ast.{macro, fn, is_kind, ItemKind, item_ok, AstItem, ast_validate, AstModule}
use nullprt.Aegc1.Driver.{ast_invalid, compile, options, compile_ast, compiled}
use nullprt.Aegc1.Ir.Lowered.{
  item_lowers, ir_validate-ir_lower, ir_validate-apply_protection_passes,
}
use nullprt.Aegc1.Module.{parser_init, parse_module}
use nullprt.Aegc1.Semantic.Verdicts.{typecheck-ok_iff}
use nullprt.Aegc1.Semantic.Counts.{total}
use nullprt.Aegc1.Semantic.{is_lowered, is_fn, monomorphize_prep, borrowcheck, typecheck}
use nullprt.Aegc1.Ir.{ir_validate, ir_lower, apply_protection_passes, IrModule}

-- What the stages ask of a syntax tree.
pub record Passes (protect_off had_error : Bool) (ast : AstModule) : Type 0 where
  pub valid : ast_validate ast ≡ true
  pub no_error : had_error ≡ false
  pub types : (typecheck ast).ok ≡ true
  pub borrows : (borrowcheck ast).ok ≡ true
  pub instances : (monomorphize_prep ast).ok ≡ true
  pub ir : ir_validate (ir_lower ast) ≡ true

pub compile_ast-compiled :
    (protect_off had_error : Bool) (ast : AstModule) {ir : IrModule}
    → compile_ast protect_off had_error ast ≡ compiled ir
    → Passes protect_off had_error ast
      × (ir ≡ apply_protection_passes (options protect_off) (ir_lower ast))
unfolding compile_ast
compile_ast-compiled protect_off had_error ast h =
    let same = ir_validate-apply_protection_passes (options protect_off) (ir_lower ast) in
    (ground (arith, same), ground (arith, same))

-- An item of this kind and name never passes `a1_ast_validate`.
abbrev pub is_proc_fn : AstItem → Bool
is_proc_fn it = is_fn it && named it (codes "proc")

abbrev pub is_attributed_async : AstItem → Bool
is_attributed_async it = is_lowered it && (it.is_async && it.has_cfg)

pub item_ok-proc : (it : AstItem) → IsParsed it → is_proc_fn it ≡ true → item_ok it ≡ false
unfolding item_ok
item_ok-proc it h e =
    let bridge : it.has_proc_macro_bridge ≡ true = h.bridge ∙ e in
    let no_macro : is_kind it.kind macro ≡ false = other_kind it.kind (ground arith) in ground arith
  where
    other_kind : (k : ItemKind) → is_kind k fn ≡ true → is_kind k macro ≡ false
    other_kind k e = ground arith

all_ok-proc :
    (items : List AstItem)
    → All IsParsed items
    → any is_proc_fn items ≡ true
    → all item_ok items ≡ false
all_ok-proc [] h e = cc
all_ok-proc (it ∷ items) h e = elim (Bool-cases (is_proc_fn it)) [
  | inl now ↦ ground (arith, item_ok-proc it h.0 now)
  | inr later ↦ ground (arith, all_ok-proc items h.1 (rw later at e))
]

-- A source with a function whose name contains `proc` is always refused, as an invalid tree,
-- whatever else it holds.
pub compile-proc :
    (protect_off : Bool) (src : Bytes)
    → any is_proc_fn (parse_module (parser_init src)).ast.items ≡ true
    → compile protect_off src ≡ ast_invalid
unfolding compile compile_ast ast_validate
compile-proc protect_off src e =
    let parsed = parse_module-IsParsedModule (parser_init src) in
    ground (arith, all_ok-proc (parse_module (parser_init src)).ast.items parsed.items e)

no_async_faults :
    (items : List AstItem)
    → all item_ok items ≡ true
    → all (λ it. not (is_lowered it) || item_lowers it) items ≡ not (any is_attributed_async items)
unfolding item_ok
no_async_faults [] h = refl
no_async_faults (it ∷ items) h =
    let ih = no_async_faults items (ground arith) in
    rw ih (
      step (is_lowered it) (it.is_async && it.has_cfg) it.has_contract (length it.name.bytes == 0)
        (any is_attributed_async items) (ground arith))
  where
    step :
        (l a c e r : Bool)
        → e ≡ false
        → ((not l || (not a && not (c && e))) && not r) ≡ not ((l && a) || r)
    step l a c e r h = ground arith

some_fn_lowers :
    (items : List AstItem)
    → any is_fn items ≡ true
    → (total (λ it. if is_lowered it then 1 else 0) items == 0) ≡ false
some_fn_lowers [] h = cc
some_fn_lowers (it ∷ items) h = elim (Bool-cases (is_fn it)) [
  | inl now ↦ rw now (ground arith)
  | inr later ↦ step (is_lowered it) _ (some_fn_lowers items (rw later at h))
]
  where
    step : (l : Bool) (n : ℕ) → (n == 0) ≡ false → (((if l then 1 else 0) + n) == 0) ≡ false
    step l n h = ground arith

-- Behind the checks of the tree and of the types, the validation of the intermediate form refuses
-- exactly the modules with an `async` function under an attribute.
pub ir_validate_behind_checks :
    (ast : AstModule)
    → ast_validate ast ≡ true
    → (typecheck ast).ok ≡ true
    → ir_validate (ir_lower ast) ≡ not (any is_attributed_async ast.items)
unfolding ast_validate
ir_validate_behind_checks ast h t =
    let checked = (typecheck-ok_iff ast).0.0 t in
    ir_validate-ir_lower ast
    ∙ rw (
      some_fn_lowers ast.items checked.some_fn,
      checked.limit,
      no_async_faults ast.items (ground arith),
    )
