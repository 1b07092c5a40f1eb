-- ===== src/Aegc1/Module.antt =====
-- `a1_parser_init` and `a1_parse_module` of `aegc1` (src/self/aegc1/frontend/parser.c).
pub mod Progress
pub mod Items
pub mod Unlexable
use nullprt.Base.{
  ℕ, bit_or, Bool, true, false, not, ◌&&◌, ◌||◌, List, [], ◌∷◌, ◌++◌, if◌then◌else◌, Bytes, codes,
  starts_with, while,
}
use nullprt.Aegc1.Ast.{ItemKind, fn, struct, enum, import, macro, AstItem, AstModule, blank_item}
use nullprt.Aegc1.Cursor.{init}
use nullprt.Aegc1.Features.{infer_feature_bits}
use nullprt.Aegc1.Parser.{
  Parser, kind_is, advance, parse_error, accept, budget, skip_until, skip_balanced,
  parse_generic_params_if_any, skip_item_body, parse_attributes_or_cfg, parse_where_clause_if_any,
  nested_depth_limit, view_contains, infer_item_semantics,
}
use nullprt.Aegc1.Lexer
use nullprt.Aegc1.Token.{
  eof, ident, kw_fn, kw_struct, kw_enum, kw_extern, kw_import, kw_where, kw_async, lparen, rparen,
  lbrace, lt, semi, arrow, hash, is, StringView, SourcePos,
}

pub record ModuleState : Type 0 where
  pub at : Parser
  pub ast : AstModule

-- `if (cur.kind == IDENT) { it.name = cur.text; next(p); }`
unfoldable pub take_name : Parser → AstItem → Parser × AstItem
take_name p it = if kind_is ident p then (advance p, record it { name = p.cur.text }) else (p, it)

-- The item's end is the end of the token behind it.
abbrev pub close_span : Parser → AstItem → AstItem
close_span p it = record it { span = record { start = it.span.start; finish = p.cur.span.finish } }

-- `push_item`
abbrev pub push_item : AstModule → AstItem → AstModule
push_item m it = record m { items = m.items ++ (it ∷ []) }

-- The end of the branches that infer an item's features and hand them on to the module.
unfoldable pub finish_item : Parser → AstItem → AstModule → ModuleState
unfolding infer_item_semantics
finish_item p it m =
    let it' = infer_item_semantics it in
    record {
      at = p;
      ast =
          push_item (record m { feature_bits = bit_or m.feature_bits it'.feature_bits })
            (close_span p it');
    }

unfoldable pub parse_import : Parser → AstItem → AstModule → ModuleState
parse_import p it m =
    let (p1, named) = take_name p it in
    let p2 = (accept semi (skip_until (λ k. is k semi) p1)).0 in
    record { at = p2; ast = push_item m (close_span p2 named) }

-- The marks that a function's name gives.
unfoldable pub name_flags : AstItem → AstItem
unfolding view_contains
name_flags it = record it {
  is_generator = view_contains it.name (codes "gen") || view_contains it.name (codes "yield");
  is_coroutine = view_contains it.name (codes "co_") || view_contains it.name (codes "coro");
  has_contract =
      view_contains it.name (codes "contract") || view_contains it.name (codes "require");
  has_invariant = view_contains it.name (codes "invariant");
  has_macro_recursion_limit = view_contains it.name (codes "macro");
  has_proc_macro_bridge = view_contains it.name (codes "proc");
  has_hygiene_attr = view_contains it.name (codes "hygiene");
}

-- The parameters, the result's type, up to where a `where` clause may stand.
unfoldable pub skip_signature : Parser → Parser
skip_signature p =
    let p1 = if kind_is lparen p then skip_balanced lparen rparen p else p in
    let (p2, typed) = accept arrow p1 in
    if typed then skip_until (λ k. is k lbrace || (is k semi || is k kw_where)) p2 else p2

unfoldable pub parse_fn : Parser → AstItem → AstModule → ModuleState
unfolding name_flags skip_signature finish_item
parse_fn p it m =
    let (p1, named) = take_name p it in
    let flagged = name_flags named in
    let p2 = skip_signature (parse_generic_params_if_any p1) in
    let p3 = skip_item_body (parse_where_clause_if_any p2) in
    finish_item p3 (record flagged { is_generic = kind_is lt p1; has_where = kind_is kw_where p2 })
      m

-- `struct` and `enum`.
unfoldable pub parse_type_item : Parser → AstItem → AstModule → ModuleState
unfolding finish_item
parse_type_item p it m =
    let (p1, named) = take_name p it in
    let p2 = skip_item_body (parse_generic_params_if_any p1) in
    finish_item p2 (record named { is_generic = kind_is lt p1 }) m

unfoldable pub parse_macro : Parser → AstItem → AstModule → ModuleState
unfolding finish_item
parse_macro p it m = finish_item (skip_item_body (advance p)) (record it { name = p.cur.text }) m

-- An identifier that begins with `mac`.
abbrev pub at_macro : Parser → Bool
at_macro p = kind_is ident p && starts_with (codes "mac") p.cur.text.bytes

-- The branches behind `import`; `extern` and `async` may stand before any of them.
unfoldable pub parse_declaration : Parser → SourcePos → Bool → AstModule → ModuleState
unfolding parse_fn parse_type_item parse_macro
parse_declaration p start attrs m =
    let (p1, is_extern) = accept kw_extern p in
    let (p2, is_async) = accept kw_async p1 in
    if kind_is kw_fn p2
    then parse_fn (advance p2)
        (record (blank_item fn start attrs) { is_extern_c = is_extern; is_async = is_async }) m
    else if kind_is kw_struct p2
    then parse_type_item (advance p2) (blank_item struct start attrs) m
    else if kind_is kw_enum p2
    then parse_type_item (advance p2) (blank_item enum start attrs) m
    else if at_macro p2
    then parse_macro p2 (blank_item macro start attrs) m
    else record { at = advance (parse_error p2); ast = m }

-- One round of the loop of `a1_parse_module`.
unfoldable pub module_step : ModuleState → ModuleState
unfolding parse_import parse_declaration
module_step s =
    let attrs = kind_is hash s.at in
    let p = parse_attributes_or_cfg s.at in
    let start = p.cur.span.start in
    if kind_is kw_import p
    then parse_import (advance p) (blank_item import start attrs) s.ast
    else parse_declaration p start attrs s.ast

unfoldable pub parser_init : Bytes → Parser
parser_init src =
    let (t, lx) = Lexer.next (init src) in record { lx = lx; cur = t; had_error = false; src = src }

unfoldable pub parse_module : Parser → ModuleState
unfolding module_step
parse_module p =
    while (budget p) (λ s. not (kind_is eof s.at)) module_step
      (record {
        at = p;
        ast = record {
          items = [];
          feature_bits = infer_feature_bits p.src;
          nested_pattern_depth_limit = nested_depth_limit p.src;
        };
      })
