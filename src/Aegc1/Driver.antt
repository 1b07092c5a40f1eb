-- ===== src/Aegc1/Driver.antt =====
-- The way of `main` through the stages of `aegc1` (src/self/aegc1/driver/main.c), from the bytes of
-- the input to the intermediate form that the back ends take. The command line, the scheduler's
-- messages, the reports and the files that are written are left out: none of them changes which
-- stage ends the run, or the form that is handed on.
pub mod Accepts
pub mod Compiled
use nullprt.Base.{
  zero, suc, [], ◌∷◌, true, false, none, some, inl, inr, Bool, not, if◌then◌else◌, Bytes,
}
use nullprt.Aegc1.Ast.{AstModule, ast_validate}
use nullprt.Aegc1.Ir.{
  IrModule, ir_lower, ir_validate, ProtectOptions, default_options, apply_protection_passes,
}
use nullprt.Aegc1.Module.{parser_init, parse_module}
use nullprt.Aegc1.Semantic.{typecheck, borrowcheck, monomorphize_prep}

-- The stage that ends the run with exit code 1, or what the back ends are given.
pub data Outcome : Type 0 where
  ast_invalid parse_failed type_failed borrow_failed mono_failed ir_invalid : Outcome
  compiled : IrModule → Outcome

-- `popt`, after `--no-protect` was read.
abbrev pub options : Bool → ProtectOptions
options protect_off = record default_options { enable = not protect_off }

-- From the syntax tree on; the flag is the parser's `had_error`.
unfoldable pub compile_ast : Bool → Bool → AstModule → Outcome
compile_ast protect_off had_error ast =
    let ir = apply_protection_passes (options protect_off) (ir_lower ast) in
    if not (ast_validate ast)
    then ast_invalid
    else if had_error
    then parse_failed
    else if not (typecheck ast).ok
    then type_failed
    else if not (borrowcheck ast).ok
    then borrow_failed
    else if not (monomorphize_prep ast).ok
    then mono_failed
    else if not (ir_validate ir)
    then ir_invalid
    else compiled ir

unfoldable pub compile : Bool → Bytes → Outcome
compile protect_off src =
    let s = parse_module (parser_init src) in compile_ast protect_off s.at.had_error s.ast
