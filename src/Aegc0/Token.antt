-- ===== src/Aegc0/Token.antt =====
-- `TokenKind` and `Token` of the seed compiler (src/seed/aegc0/lexer.h, aegc0.h). A `Str` is the
-- list of its bytes.
use nullprt.Base.{◌==◌, Bytes, Bool, ℕ}

pub data TokenKind : Type 0 where
  eof ident int string : TokenKind
  kw_fn kw_let kw_extern kw_return kw_if kw_else kw_while : TokenKind
  lparen rparen lbrace rbrace colon semi comma arrow assign : TokenKind
  plus minus star slash percent : TokenKind
  eqeq neq lt lte gt gte andand oror bang : TokenKind

-- The enumeration's value of a kind, by which C compares kinds.
unfoldable pub kind_value : TokenKind → ℕ
kind_value eof = 0
kind_value ident = 1
kind_value int = 2
kind_value string = 3
kind_value kw_fn = 4
kind_value kw_let = 5
kind_value kw_extern = 6
kind_value kw_return = 7
kind_value kw_if = 8
kind_value kw_else = 9
kind_value kw_while = 10
kind_value lparen = 11
kind_value rparen = 12
kind_value lbrace = 13
kind_value rbrace = 14
kind_value colon = 15
kind_value semi = 16
kind_value comma = 17
kind_value arrow = 18
kind_value assign = 19
kind_value plus = 20
kind_value minus = 21
kind_value star = 22
kind_value slash = 23
kind_value percent = 24
kind_value eqeq = 25
kind_value neq = 26
kind_value lt = 27
kind_value lte = 28
kind_value gt = 29
kind_value gte = 30
kind_value andand = 31
kind_value oror = 32
kind_value bang = 33

-- `a == b` on kinds
abbrev pub is : TokenKind → TokenKind → Bool
is a b = kind_value a == kind_value b

pub record SrcLoc : Type 0 where
  pub line : ℕ
  pub col : ℕ

pub record Span : Type 0 where
  pub start : SrcLoc
  pub end : SrcLoc

pub record Token : Type 0 where
  pub kind : TokenKind
  pub span : Span
  pub text : Bytes
  pub int_value : ℕ
