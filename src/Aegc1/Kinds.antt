-- ===== src/Aegc1/Kinds.antt =====
-- The tables of `aegc1`'s lexer: which bytes make which kind of token (frontend/lexer.c).
use nullprt.Base.{ℕ, Bool, ◌&&◌, List, [], ◌∷◌, if◌then◌else◌, ◌==◌, Bytes, codes, bytes_eq, any}
use Prim.Native.String.{String}
use nullprt.Aegc1.Token.{
  TokenKind, eof, ident, kw_fn, kw_let, kw_mut, kw_struct, kw_enum, kw_match, kw_extern, kw_import,
  kw_if, kw_else, kw_while, kw_return, kw_where, kw_async, kw_await, kw_cfg, lparen, rparen, lbrace,
  rbrace, lbrack, rbrack, lt, gt, colon, semi, comma, dot, arrow, fatarrow, hash, bang, assign,
  plus, minus, star, slash, percent, eqeq, neq, lte, gte, andand, oror, pipe,
}

abbrev reserved_words : List String
reserved_words =
    "fn" ∷ "let" ∷ "mut" ∷ "const" ∷ "static" ∷ "type" ∷ "struct" ∷ "enum" ∷ "union" ∷ "trait"
    ∷ "impl" ∷ "mod" ∷ "use" ∷ "import" ∷ "export" ∷ "extern" ∷ "as" ∷ "where" ∷ "pub" ∷ "crate"
    ∷ "super" ∷ "self" ∷ "if" ∷ "else" ∷ "unless" ∷ "when" ∷ "cond" ∷ "switch" ∷ "match" ∷ "loop"
    ∷ "while" ∷ "for" ∷ "in" ∷ "break" ∷ "continue" ∷ "return" ∷ "yield" ∷ "await" ∷ "try" ∷ "catch"
    ∷ "finally" ∷ "defer" ∷ "throw" ∷ "panic" ∷ "recover" ∷ "async" ∷ "channel" ∷ "send" ∷ "recv"
    ∷ "select" ∷ "atomic" ∷ "fence" ∷ "unsafe" ∷ "derive" ∷ "macro" ∷ "macro_rules" ∷ "cfg"
    ∷ "cfg_attr" ∷ "test" ∷ "bench" ∷ "doc" ∷ "reflect" ∷ "meta" ∷ "comptime" ∷ "effect" ∷ "generic"
    ∷ "associated" ∷ "exists" ∷ "linear" ∷ "session" ∷ []

-- `a1_is_reserved_keyword`: the first hit ends the search.
unfoldable pub is_reserved_keyword : Bytes → Bool
is_reserved_keyword sv = any (λ kw. bytes_eq sv (codes kw)) reserved_words

-- The keywords that have a kind of their own.
unfoldable pub keyword_kind : Bytes → TokenKind
keyword_kind sv =
    if bytes_eq sv (codes "fn")
    then kw_fn
    else if bytes_eq sv (codes "let")
    then kw_let
    else if bytes_eq sv (codes "mut")
    then kw_mut
    else if bytes_eq sv (codes "struct")
    then kw_struct
    else if bytes_eq sv (codes "enum")
    then kw_enum
    else if bytes_eq sv (codes "match")
    then kw_match
    else if bytes_eq sv (codes "extern")
    then kw_extern
    else if bytes_eq sv (codes "import")
    then kw_import
    else if bytes_eq sv (codes "if")
    then kw_if
    else if bytes_eq sv (codes "else")
    then kw_else
    else if bytes_eq sv (codes "while")
    then kw_while
    else if bytes_eq sv (codes "return")
    then kw_return
    else if bytes_eq sv (codes "where")
    then kw_where
    else if bytes_eq sv (codes "async")
    then kw_async
    else if bytes_eq sv (codes "await")
    then kw_await
    else if bytes_eq sv (codes "cfg")
    then kw_cfg
    else ident

-- The operators of two bytes; `eof` stands for none of them.
unfoldable pub double_kind : ℕ → ℕ → TokenKind
double_kind c d =
    if c == b'-' && d == b'>'
    then arrow
    else if c == b'=' && d == b'>'
    then fatarrow
    else if c == b'=' && d == b'='
    then eqeq
    else if c == b'!' && d == b'='
    then neq
    else if c == b'<' && d == b'='
    then lte
    else if c == b'>' && d == b'='
    then gte
    else if c == b'&' && d == b'&'
    then andand
    else if c == b'|' && d == b'|'
    then oror
    else eof

-- The `switch` on one byte; `eof` stands for its default.
unfoldable pub single_kind : ℕ → TokenKind
single_kind c =
    if c == b'('
    then lparen
    else if c == b')'
    then rparen
    else if c == b'{'
    then lbrace
    else if c == b'}'
    then rbrace
    else if c == b'['
    then lbrack
    else if c == b']'
    then rbrack
    else if c == b'<'
    then lt
    else if c == b'>'
    then gt
    else if c == b':'
    then colon
    else if c == b';'
    then semi
    else if c == b','
    then comma
    else if c == b'.'
    then dot
    else if c == b'#'
    then hash
    else if c == b'!'
    then bang
    else if c == b'='
    then assign
    else if c == b'+'
    then plus
    else if c == b'-'
    then minus
    else if c == b'*'
    then star
    else if c == b'/'
    then slash
    else if c == b'%'
    then percent
    else if c == b'|'
    then pipe
    else eof
