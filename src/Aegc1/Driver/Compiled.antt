-- ===== src/Aegc1/Driver/Compiled.antt =====
-- What is known of a source that `aegc1` hands on to its back ends (driver/main.c).
use nullprt.Aegc1.Ir.Lowered.{length-ir_lower, all-protect_fn}
use nullprt.Aegc1.Driver.{options, compile, compiled}
use nullprt.Base.{
  ap, ◌||◌, [], ◌∷◌, true, false, inl, inr, refl, ◌∙◌, codes, ◌&&◌, sym, map, if◌then◌else◌,
  Bool-cases, not, arith, any, ◌≤◌, ◌==◌, all, length, All, Bytes, List, Bool, ◌≡◌,
}
use nullprt.Aegc1.Semantic.Counts.{borrowcheck-violations, faults, total}
use nullprt.Aegc1.Module.Items.{parse_module-IsParsedModule, named, IsParsed}
use nullprt.Aegc1.Driver.Accepts.{
  ir_validate_behind_checks, item_ok-proc, compile_ast-compiled, is_proc_fn, is_attributed_async,
}
use nullprt.Aegc1.Semantic.Verdicts.{typecheck-ok_iff, TypeChecks}
use nullprt.Aegc1.Semantic.{is_lowered, is_fn}
use nullprt.Aegc1.Ir.{protect_fn, ir_lower, ProtectOptions, apply_protection_passes, IrModule}
use nullprt.Aegc1.Ast.{ast_validate, AstModule, item_ok, AstItem}
use nullprt.Aegc1.Module.{parser_init, parse_module}

-- An item of a compiled module.
pub record IsAccepted (it : AstItem) : Type 0 where
  pub has_name : (length it.name.bytes == 0) ≡ false
  pub no_proc : is_proc_fn it ≡ false
  pub coroutine_async :
      (is_fn it && (named it (codes "co_") || named it (codes "coro"))) ≡ true → it.is_async ≡ true
  pub plain_async : is_attributed_async it ≡ false

item-IsAccepted :
    (it : AstItem)
    → IsParsed it
    → item_ok it ≡ true
    → is_attributed_async it ≡ false
    → IsAccepted it
unfolding item_ok
item-IsAccepted it h ok plain = record {
  has_name = ground arith;
  no_proc = elim (Bool-cases (is_proc_fn it)) [
    | inl e ↦ absurd (false-true (sym (item_ok-proc it h e) ∙ ok))
    | inr e ↦ e
  ];
  coroutine_async = λ e. ground (arith, h.coroutine ∙ e);
  plain_async = plain;
}
  where
    false-true : false ≡ true → ⊥
    false-true e = cc

items-IsAccepted :
    (items : List AstItem)
    → All IsParsed items
    → all item_ok items ≡ true
    → any is_attributed_async items ≡ false
    → All IsAccepted items
items-IsAccepted [] h ok plain = tt
items-IsAccepted (it ∷ items) h ok plain = (
  item-IsAccepted it h.0 (ground arith) (ground arith),
  items-IsAccepted items h.1 (ground arith) (ground arith),
)

pub record IsCompiled (ast : AstModule) (had_error : Bool) (ir : IrModule) : Type 0 where
  pub no_error : had_error ≡ false
  pub items : All IsAccepted ast.items
  pub limit_low : 1 ≤ ast.nested_pattern_depth_limit
  pub limit_high : ast.nested_pattern_depth_limit ≤ 256
  pub types : TypeChecks ast
  pub no_violation : total (faults ast.feature_bits) ast.items ≡ 0
  pub lengths : length ir.fns ≡ total (λ it. if is_lowered it then 1 else 0) ast.items

apply-length :
    (opt : ProtectOptions) (m : AstModule)
    → length (apply_protection_passes opt (ir_lower m)).fns ≡ length (ir_lower m).fns
unfolding apply_protection_passes
apply-length opt m = go opt.enable
  where
    go :
        (on : Bool)
        → length
            (if not on
              then ir_lower m
              else record (ir_lower m) { fns = map (protect_fn opt) (ir_lower m).fns }).fns
          ≡ length (ir_lower m).fns
    go true = (all-protect_fn opt (ir_lower m).fns).1
    go false = refl

-- If a source is compiled, the parser met no error; every item has a name, no function's name
-- contains `proc`, those that contain `co_` or `coro` are `async`, and no `async` function stands
-- under an attribute; the depth limit is between 1 and 256; the type check and the borrow check
-- find nothing; and the form that is handed on has one entry for each function, structure and
-- enumeration.
pub compile-IsCompiled :
    (protect_off : Bool) (src : Bytes) {ir : IrModule}
    → compile protect_off src ≡ compiled ir
    → IsCompiled
        (parse_module (parser_init src)).ast
        (parse_module (parser_init src)).at.had_error
        ir
unfolding compile
compile-IsCompiled protect_off src {ir} h =
    let s = parse_module (parser_init src) in
    let (passes, is) = compile_ast-compiled protect_off s.at.had_error s.ast h in
    let types = (typecheck-ok_iff s.ast).0.0 passes.types in
    let plain : any is_attributed_async s.ast.items ≡ false =
      not-true (sym (ir_validate_behind_checks s.ast passes.valid passes.types) ∙ passes.ir) in
    record {
      no_error = passes.no_error;
      items =
          items-IsAccepted s.ast.items (parse_module-IsParsedModule (parser_init src)).items
            (all_items_ok s.ast passes.valid) plain;
      limit_low = ground (arith, types.limit);
      limit_high = ground (arith, types.limit);
      types = types;
      no_violation = ground (arith, borrowcheck-violations s.ast, passes.borrows);
      lengths =
          ap (λ (m : IrModule). length m.fns) is
          ∙ apply-length (options protect_off) s.ast
          ∙ length-ir_lower s.ast;
    }
  where
    not-true : {b : Bool} → not b ≡ true → b ≡ false
    not-true {b} e = ground arith

    all_items_ok : (ast : AstModule) → ast_validate ast ≡ true → all item_ok ast.items ≡ true
    all_items_ok ast e = unfold ast_validate in ground arith
