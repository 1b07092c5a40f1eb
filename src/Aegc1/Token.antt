-- ===== src/Aegc1/Token.antt =====
-- `A1TokenKind` and `A1Token` (frontend/lexer.h), with the positions of common.h.
use nullprt.Base.{ℕ, Bool, ◌==◌, Bytes}

pub data TokenKind : Type 0 where
  eof ident int string : TokenKind
  kw_fn kw_let kw_mut kw_struct kw_enum kw_match kw_extern kw_import : TokenKind
  kw_if kw_else kw_while kw_return kw_where kw_async kw_await kw_cfg : TokenKind
  lparen rparen lbrace rbrace lbrack rbrack lt gt : TokenKind
  colon semi comma dot arrow fatarrow hash bang assign : TokenKind
  plus minus star slash percent eqeq neq lte gte andand oror pipe : TokenKind

-- The enumeration's value of a kind, by which C compares kinds.
unfoldable pub kind_value : TokenKind → ℕ
kind_value eof = 0
kind_value ident = 1
kind_value int = 2
kind_value string = 3
kind_value kw_fn = 4
kind_value kw_let = 5
kind_value kw_mut = 6
kind_value kw_struct = 7
kind_value kw_enum = 8
kind_value kw_match = 9
kind_value kw_extern = 10
kind_value kw_import = 11
kind_value kw_if = 12
kind_value kw_else = 13
kind_value kw_while = 14
kind_value kw_return = 15
kind_value kw_where = 16
kind_value kw_async = 17
kind_value kw_await = 18
kind_value kw_cfg = 19
kind_value lparen = 20
kind_value rparen = 21
kind_value lbrace = 22
kind_value rbrace = 23
kind_value lbrack = 24
kind_value rbrack = 25
kind_value lt = 26
kind_value gt = 27
kind_value colon = 28
kind_value semi = 29
kind_value comma = 30
kind_value dot = 31
kind_value arrow = 32
kind_value fatarrow = 33
kind_value hash = 34
kind_value bang = 35
kind_value assign = 36
kind_value plus = 37
kind_value minus = 38
kind_value star = 39
kind_value slash = 40
kind_value percent = 41
kind_value eqeq = 42
kind_value neq = 43
kind_value lte = 44
kind_value gte = 45
kind_value andand = 46
kind_value oror = 47
kind_value pipe = 48

-- `a == b` of two kinds.
abbrev pub is : TokenKind → TokenKind → Bool
is a b = kind_value a == kind_value b

pub record SourcePos : Type 0 where
  pub line : ℕ
  pub col : ℕ

pub record Span : Type 0 where
  pub start : SourcePos
  pub finish : SourcePos

-- A view of the source: the offset of `ptr` from the source's start, and the bytes it spans.
pub record StringView : Type 0 where
  pub ptr : ℕ
  pub bytes : Bytes

pub record Token : Type 0 where
  pub kind : TokenKind
  pub text : StringView
  pub span : Span
