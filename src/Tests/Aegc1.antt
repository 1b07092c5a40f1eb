-- ===== src/Tests/Aegc1.antt =====
-- `aegc1` on small sources.
use nullprt.Aegc1.Ast.{ast_validate, item_ok, AstModule}
use nullprt.Aegc1.Cursor.{
  bump, init, skip_blank, skip_block_comment, skip_line_comment, skip_ws_comments,
}
use nullprt.Aegc1.Driver.{compile, compile_ast, ast_invalid, compiled}
use nullprt.Aegc1.Features.{add_if, has, infer_feature_bits, infer_rows}
use nullprt.Aegc1.Ir.{
  apply_protection_passes, fnv1a64, fnv1a64_from, ir_lower, ir_validate, lower_item, lower_items,
  protect_fn, default_options, IrModule,
}
use nullprt.Aegc1.Kinds.{double_kind, keyword_kind, single_kind}
use nullprt.Aegc1.Lexer.{lex_at, lex_number, lex_string, lex_word, next, string_step}
use nullprt.Aegc1.Module.{
  finish_item, name_flags, parse_declaration, parse_fn, parse_import, parse_macro, parse_module,
  parse_type_item, parser_init, skip_signature, take_name, module_step,
}
use nullprt.Aegc1.Parser.{
  accept, advance, attribute_step, balanced_loop, balanced_step, infer_item_semantics,
  nested_depth_limit, parse_attributes_or_cfg, parse_generic_params_if_any,
  parse_where_clause_if_any, skip_balanced, skip_item_body, skip_until, view_contains, kind_is,
}
use nullprt.Aegc1.Semantic.{
  borrow_item, borrow_items, borrowcheck, check_rules, mono_item, mono_items, monomorphize_prep,
  rule_fails, typecheck,
}
use nullprt.Aegc1.Token.{kind_value, eof}
use nullprt.Base.{
  bytes_eq, is_alnum, is_alpha, is_digit, occurs, starts_with, while, [], ◌∷◌, true, false, refl,
  arith, ◌≤◌, any, ◌<◌, not, length, codes, Bytes, ◌≡◌,
}
use nullprt.Aegc1.Lexer.Positions.{init-IsAt, next-IsAt, IsSlice, IsAt}
use nullprt.Aegc1.Module.Progress.{parse_module_stops}
use nullprt.Aegc1.Ir.Lowered.{ir_validate-apply_protection_passes}
use nullprt.Aegc1.Driver.Accepts.{ir_validate_behind_checks, is_attributed_async, compile-proc}
use nullprt.Aegc1.Module.Items.{parse_module-IsParsedModule, IsParsedModule}
use nullprt.Aegc1.Lexer.Progress.{next_shrinks}
use nullprt.Aegc1.Driver.Compiled.{compile-IsCompiled, IsCompiled}
use nullprt.Aegc1.Parser.Runs.{Runs}
use nullprt.Aegc1.Module.Unlexable.{parse_module-Unlexable, IsStray}

-- What a run of the compiler computes with.
run : Unit {0}
unfolding compile compile_ast parse_module parser_init while infer_feature_bits infer_rows add_if
    has occurs starts_with bytes_eq is_digit is_alpha is_alnum nested_depth_limit init bump
    skip_ws_comments skip_blank skip_line_comment skip_block_comment keyword_kind double_kind
    single_kind lex_string lex_word lex_number lex_at next string_step kind_value advance accept
    skip_until balanced_step balanced_loop skip_balanced parse_generic_params_if_any skip_item_body
    attribute_step parse_attributes_or_cfg parse_where_clause_if_any view_contains
    infer_item_semantics take_name finish_item parse_import name_flags skip_signature parse_fn
    parse_type_item parse_macro parse_declaration module_step item_ok ast_validate rule_fails
    check_rules typecheck borrow_item borrow_items borrowcheck mono_item mono_items
    monomorphize_prep fnv1a64_from fnv1a64 lower_item lower_items ir_lower ir_validate protect_fn
    apply_protection_passes
run = tt

abbrev hello : Bytes
hello = codes "// demo\nfn main() -> i32 { return 0; }\nstruct Pair<T> { a; }"

hello_ir : IrModule
unfolding run
hello_ir = apply_protection_passes default_options (ir_lower (parse_module (parser_init hello)).ast)

hello_compiles : compile false hello ≡ compiled hello_ir
unfolding run hello_ir
hello_compiles = refl

compile-IsCompiled_example :
    IsCompiled
      (parse_module (parser_init hello)).ast
      (parse_module (parser_init hello)).at.had_error
      hello_ir
compile-IsCompiled_example = compile-IsCompiled false hello hello_compiles

abbrev process : Bytes
process = codes "fn process() { }"

compile-proc_example : compile true process ≡ ast_invalid
unfolding run
compile-proc_example = compile-proc true process refl

abbrev hello_ast : AstModule
hello_ast = (parse_module (parser_init hello)).ast

ir_validate_behind_checks_example :
    ir_validate (ir_lower hello_ast) ≡ not (any is_attributed_async hello_ast.items)
unfolding run
ir_validate_behind_checks_example = ir_validate_behind_checks hello_ast refl refl

parse_module-IsParsedModule_example : IsParsedModule (parser_init hello).src hello_ast
parse_module-IsParsedModule_example = parse_module-IsParsedModule (parser_init hello)

parse_module_stops_example :
    Runs (parser_init hello) (parse_module (parser_init hello)).at
    × (kind_is eof (parse_module (parser_init hello)).at ≡ true)
parse_module_stops_example = parse_module_stops (parser_init hello)

next-IsAt_example :
    IsAt hello (next (init hello)).1
    × ((init hello).i ≤ (next (init hello)).1.i)
    × IsSlice hello (next (init hello)).0.text
next-IsAt_example = next-IsAt hello (init hello) (init-IsAt hello)

next_shrinks_example : length (next (init hello)).1.rest < length (init hello).rest
unfolding run
next_shrinks_example = next_shrinks (init hello) refl

ir_validate-apply_protection_passes_example :
    ir_validate (apply_protection_passes default_options hello_ir) ≡ ir_validate hello_ir
ir_validate-apply_protection_passes_example =
    ir_validate-apply_protection_passes default_options hello_ir

at_sign-IsStray : IsStray b'@'
at_sign-IsStray = record {
  nonzero = λ e. ground arith;
  blank = ((λ e. ground arith, (λ e. ground arith, (λ e. ground arith, (λ e. ground arith, tt)))));
  operator =
      ((
        λ e. ground arith,
        (
          λ e. ground arith,
          (
            λ e. ground arith,
            (
              λ e. ground arith,
              (
                λ e. ground arith,
                (
                  λ e. ground arith,
                  (
                    λ e. ground arith,
                    (
                      λ e. ground arith,
                      (
                        λ e. ground arith,
                        (
                          λ e. ground arith,
                          (
                            λ e. ground arith,
                            (
                              λ e. ground arith,
                              (
                                λ e. ground arith,
                                (
                                  λ e. ground arith,
                                  (
                                    λ e. ground arith,
                                    (
                                      λ e. ground arith,
                                      (
                                        λ e. ground arith,
                                        (
                                          λ e. ground arith,
                                          (
                                            λ e. ground arith,
                                            (
                                              λ e. ground arith,
                                              (λ e. ground arith, (λ e. ground arith, tt)),
                                            ),
                                          ),
                                        ),
                                      ),
                                    ),
                                  ),
                                ),
                              ),
                            ),
                          ),
                        ),
                      ),
                    ),
                  ),
                ),
              ),
            ),
          ),
        ),
      ));
  quote = λ e. ground arith;
  underscore = λ e. ground arith;
  digit = λ e. ground arith;
  small = λ e. ground arith;
  capital = λ e. ground arith;
}

parse_module-Unlexable_example :
    ((parse_module (parser_init (b'@' ∷ codes "fn main() { }"))).ast.items ≡ [])
    × ((parse_module (parser_init (b'@' ∷ codes "fn main() { }"))).at.had_error ≡ false)
parse_module-Unlexable_example = parse_module-Unlexable b'@' (codes "fn main() { }") at_sign-IsStray
