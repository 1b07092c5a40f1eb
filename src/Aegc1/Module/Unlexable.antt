-- ===== src/Aegc1/Module/Unlexable.antt =====
-- A byte that begins no token ends the parse (frontend/lexer.c, frontend/parser.c).
use nullprt.Aegc1.Kinds.{double_kind, single_kind}
use nullprt.Aegc1.Lexer.{next, lex_at}
use nullprt.Aegc1.Module.{parse_module, module_step, ModuleState, parser_init}
use nullprt.Aegc1.Token.{kind_value, is, eof}
use nullprt.Base.{
  is_alpha, is_digit, [], ◌∷◌, true, false, refl, ◌≤◌, arith, codes, ◌≢◌, All, not, while,
  while_done, ◌&&◌, ◌||◌, ◌==◌, Bytes, ℕ, ◌≡◌,
}
use nullprt.Aegc1.Parser.{budget, nested_depth_limit, kind_is, Parser}
use nullprt.Aegc1.Features.{infer_feature_bits}
use nullprt.Aegc1.Cursor.{
  skip_blank, skip_ws_comments, init, at_blank, p2, is_space, first, p1, Lexer,
}

-- The byte is no blank, no letter and no digit, and none of the signs that a token begins with: it
-- is one like `@`, `$`, `~`, `^`, `?` or a backslash, or is no ASCII.
pub record IsStray (c : ℕ) : Type 0 where
  pub nonzero : c ≢ 0
  pub blank : All (λ d. c ≢ d) (codes " \t\r\n")
  pub operator : All (λ d. c ≢ d) (codes "(){}[]<>:;,.#!=+-*/%|&")
  pub quote : c ≢ b'"'
  pub underscore : c ≢ b'_'
  pub digit : ¬ ((b'0' ≤ c) × (c ≤ b'9'))
  pub small : ¬ ((b'a' ≤ c) × (c ≤ b'z'))
  pub capital : ¬ ((b'A' ≤ c) × (c ≤ b'Z'))

-- Neither blank nor the start of a comment, of an operator, a string, a word or a number.
record Unlexable (c d : ℕ) : Type 0 where
  nonzero : (c == 0) ≡ false
  no_blank : (is_space c || (c == b'/' && (d == b'/' || d == b'*'))) ≡ false
  no_double : is (double_kind c d) eof ≡ true
  no_single : is (single_kind c) eof ≡ true
  no_string : (c == b'"') ≡ false
  no_word : (is_alpha c || c == b'_') ≡ false
  no_number : is_digit c ≡ false

IsStray-Unlexable : (c d : ℕ) → IsStray c → Unlexable c d
unfolding is_alpha is_digit double_kind single_kind kind_value
IsStray-Unlexable c d s = record {
  nonzero = ground (arith, s.nonzero);
  no_blank = ground (
    arith, s.blank.0, s.blank.1.0, s.blank.1.1.0, s.blank.1.1.1.0,
    s.operator.1.1.1.1.1.1.1.1.1.1.1.1.1.1.1.1.1.1.0,
  );
  no_double = no_double_of c d s.operator;
  no_single = no_single_of c s.operator;
  no_string = ground (arith, s.quote);
  no_word = ground (arith, s.underscore, s.small, s.capital);
  no_number = ground (arith, s.digit);
}
  where
    no_double_of :
        (c d : ℕ)
        → All (λ d. c ≢ d) (codes "(){}[]<>:;,.#!=+-*/%|&")
        → is (double_kind c d) eof ≡ true
    no_double_of c d o = ground (
      arith, o.1.1.1.1.1.1.1.1.1.1.1.1.1.1.1.1.0, o.1.1.1.1.1.1.1.1.1.1.1.1.1.1.0,
      o.1.1.1.1.1.1.1.1.1.1.1.1.1.0, o.1.1.1.1.1.1.0, o.1.1.1.1.1.1.1.0,
      o.1.1.1.1.1.1.1.1.1.1.1.1.1.1.1.1.1.1.1.1.1.0, o.1.1.1.1.1.1.1.1.1.1.1.1.1.1.1.1.1.1.1.1.0,
    )

    no_single_of :
        (c : ℕ) → All (λ d. c ≢ d) (codes "(){}[]<>:;,.#!=+-*/%|&") → is (single_kind c) eof ≡ true
    no_single_of c o = ground (
      arith, o.0, o.1.0, o.1.1.0, o.1.1.1.0, o.1.1.1.1.0, o.1.1.1.1.1.0, o.1.1.1.1.1.1.0,
      o.1.1.1.1.1.1.1.0, o.1.1.1.1.1.1.1.1.0, o.1.1.1.1.1.1.1.1.1.0, o.1.1.1.1.1.1.1.1.1.1.0,
      o.1.1.1.1.1.1.1.1.1.1.1.0, o.1.1.1.1.1.1.1.1.1.1.1.1.0, o.1.1.1.1.1.1.1.1.1.1.1.1.1.0,
      o.1.1.1.1.1.1.1.1.1.1.1.1.1.1.0, o.1.1.1.1.1.1.1.1.1.1.1.1.1.1.1.0,
      o.1.1.1.1.1.1.1.1.1.1.1.1.1.1.1.1.0, o.1.1.1.1.1.1.1.1.1.1.1.1.1.1.1.1.1.0,
      o.1.1.1.1.1.1.1.1.1.1.1.1.1.1.1.1.1.1.0, o.1.1.1.1.1.1.1.1.1.1.1.1.1.1.1.1.1.1.1.0,
      o.1.1.1.1.1.1.1.1.1.1.1.1.1.1.1.1.1.1.1.1.0, o.1.1.1.1.1.1.1.1.1.1.1.1.1.1.1.1.1.1.1.1.1.0,
    )

next-Unlexable : (lx : Lexer) → Unlexable (p1 lx) (p2 lx) → (next lx).0.kind ≡ eof
unfolding next
next-Unlexable lx h =
    rw (skip_none lx h.no_blank) (
      unfold lex_at in
      rw (h.nonzero, h.no_double, h.no_single, h.no_string, h.no_word, h.no_number))
  where
    skip_none : (lx : Lexer) → at_blank lx ≡ false → skip_ws_comments lx ≡ lx
    skip_none lx e = unfold skip_ws_comments in while_done _ at_blank skip_blank lx e

-- A source whose first byte is no blank, no letter, no digit and no sign that a token begins with
-- is parsed without an error to a module without items, whatever stands behind that byte.
pub parse_module-Unlexable :
    (c : ℕ) (rest : Bytes)
    → IsStray c
    → ((parse_module (parser_init (c ∷ rest))).ast.items ≡ [])
      × ((parse_module (parser_init (c ∷ rest))).at.had_error ≡ false)
unfolding parse_module
parse_module-Unlexable c rest stray = rw stopped (refl, unfold parser_init in refl)
  where
    h : Unlexable c (first rest)
    h = IsStray-Unlexable c (first rest) stray

    p : Parser
    p = parser_init (c ∷ rest)

    at_end : kind_is eof p ≡ true
    at_end =
        unfold parser_init init in
        rw (next-Unlexable (init (c ∷ rest)) h) (unfold kind_value in refl)

    s : ModuleState
    s = record {
      at = p;
      ast = record {
        items = [];
        feature_bits = infer_feature_bits p.src;
        nested_pattern_depth_limit = nested_depth_limit p.src;
      };
    }

    stopped : while (budget p) (λ t. not (kind_is eof t.at)) module_step s ≡ s
    stopped = while_done (budget p) (λ t. not (kind_is eof t.at)) module_step s (rw at_end)
