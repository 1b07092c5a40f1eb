-- ===== src/Aegc1/Parser.antt =====
-- The parser of `aegc1` (src/self/aegc1/frontend/parser.c). Messages to `stderr` are left out, and
-- `push_item` finds memory. Each loop has one round more than tokens can be left.
pub mod Runs
pub mod Limit
use nullprt.Base.{
  ℕ, ◌+◌, ◌-◌, ◌*◌, Bool, true, false, not, ◌&&◌, ◌||◌, ltb, leb, [], ◌∷◌, if◌then◌else◌, Bytes,
  codes, occurs, starts_with, length, drop, while,
}
use nullprt.Aegc1.Ast.{AstItem}
use nullprt.Aegc1.Cursor.{Lexer, u32}
use nullprt.Aegc1.Feature
use nullprt.Aegc1.Features.{add_if}
use nullprt.Aegc1.Lexer
use nullprt.Aegc1.Token.{
  TokenKind, eof, kw_where, lbrace, rbrace, lbrack, rbrack, lt, gt, semi, hash, bang, is, Token,
  StringView,
}

pub record Parser : Type 0 where
  pub lx : Lexer
  pub cur : Token
  pub had_error : Bool
  pub src : Bytes

abbrev pub kind_is : TokenKind → Parser → Bool
kind_is k p = is p.cur.kind k

-- `next`
unfoldable pub advance : Parser → Parser
advance p = let (t, lx) = Lexer.next p.lx in record p { lx = lx; cur = t }

abbrev pub parse_error : Parser → Parser
parse_error p = record p { had_error = true }

unfoldable pub accept : TokenKind → Parser → Parser × Bool
accept k p = if kind_is k p then (advance p, true) else (p, false)

-- Enough rounds for a loop that reads a token in each.
abbrev pub budget : Parser → ℕ
budget p = length p.lx.rest + 2

-- `while (cur.kind != EOF && !stop) next(p)`
unfoldable pub skip_until : (TokenKind → Bool) → Parser → Parser
skip_until stop p = while (budget p) (λ q. not (kind_is eof q) && not (stop q.cur.kind)) advance p

pub record Nesting : Type 0 where
  pub depth : ℕ
  pub at : Parser

unfoldable pub balanced_step : TokenKind → TokenKind → Nesting → Nesting
balanced_step opener closer s = record {
  depth =
      if kind_is opener s.at
      then s.depth + 1
      else if kind_is closer s.at
      then s.depth - 1
      else s.depth;
  at = advance s.at;
}

-- `while (cur.kind != EOF && depth > 0)`
unfoldable pub balanced_loop : TokenKind → TokenKind → Nesting → Nesting
unfolding balanced_step
balanced_loop opener closer s =
    while (budget s.at) (λ t. not (kind_is eof t.at) && ltb 0 t.depth) (balanced_step opener closer)
      s

unfoldable pub skip_balanced : TokenKind → TokenKind → Parser → Parser
unfolding balanced_loop
skip_balanced opener closer p =
    let (q, opened) = accept opener p in
    (balanced_loop opener closer (record { depth = if opened then 1 else 0; at = q })).at

unfoldable pub parse_generic_params_if_any : Parser → Parser
unfolding balanced_loop
parse_generic_params_if_any p =
    let (q, opened) = accept lt p in
    if opened then (balanced_loop lt gt (record { depth = 1; at = q })).at else q

unfoldable pub skip_item_body : Parser → Parser
unfolding skip_balanced skip_until
skip_item_body p =
    if kind_is lbrace p
    then skip_balanced lbrace rbrace p
    else (accept semi (skip_until (λ k. is k semi) p)).0

-- One round of `parse_attributes_or_cfg`: `#`, `!` if it is there, and what the brackets hold.
unfoldable pub attribute_step : Parser → Parser
unfolding skip_until
attribute_step p =
    let q = (accept bang (advance p)).0 in
    let (r, opened) = accept lbrack q in
    if opened then (accept rbrack (skip_until (λ k. is k rbrack) r)).0 else r

unfoldable pub parse_attributes_or_cfg : Parser → Parser
unfolding attribute_step
parse_attributes_or_cfg p = while (budget p) (kind_is hash) attribute_step p

unfoldable pub parse_where_clause_if_any : Parser → Parser
unfolding skip_until
parse_where_clause_if_any p =
    let (q, found) = accept kw_where p in
    if found then skip_until (λ k. is k lbrace || is k semi) q else q

-- `uint32_t v` over the digits at hand.
unfoldable pub read_digits : ℕ → Bytes → ℕ
read_digits v [] = v
read_digits v (c ∷ s) =
    let rest = read_digits (u32 (v * 10 + (c - b'0'))) s in
    if leb b'0' c && leb c b'9' then rest else v

abbrev pub depth_key : Bytes
depth_key = codes "nested_pattern_depth="

-- At each offset that leaves a byte behind the key; a value of 0 does not end the search.
unfoldable pub nested_depth_limit : Bytes → ℕ
unfolding read_digits
nested_depth_limit [] = 16
nested_depth_limit (c ∷ s) =
    let later = nested_depth_limit s in
    let v = read_digits 0 (drop 21 (c ∷ s)) in
    if leb (length (c ∷ s)) 21
    then 16
    else if starts_with depth_key (c ∷ s) && ltb 0 v
    then v
    else later

unfoldable pub view_contains : StringView → Bytes → Bool
view_contains sv lit = occurs lit sv.bytes

unfoldable pub infer_item_semantics : AstItem → AstItem
unfolding view_contains
infer_item_semantics it = record it {
  signature_type = record {
    raw = it.name;
    has_where = it.has_where;
    has_effect = view_contains it.name (codes "effect");
    has_session = view_contains it.name (codes "session");
    has_exists = view_contains it.name (codes "exists");
    has_linear = view_contains it.name (codes "linear");
    has_dependent = view_contains it.name (codes "dep");
    has_refinement = view_contains it.name (codes "refine");
  };
  feature_bits = add_if it.has_where Feature.refinement_type (
      add_if it.is_coroutine Feature.coroutine_sched (
        add_if it.is_generator Feature.generator_resume
          (add_if it.is_async Feature.async_cancel it.feature_bits)));
}
