-- ===== src/Aegc0/Statements/Grammar.antt =====
-- The grammar of the seed compiler's programs: what src/seed/aegc0/parser.c is to read.
use nullprt.Base.{[], ◌∷◌, true, false, ◌++◌, ◌≡◌, codes, List, Bytes, Bool}
use nullprt.Aegc0.Token.{
  rbrace, lbrace, kw_while, kw_else, kw_if, kw_return, kw_fn, kw_extern, comma, assign, string,
  semi, ident, colon, arrow, rparen, lparen, kw_let, is, Token, TokenKind,
}
use nullprt.Aegc0.Ast.{
  stmt, while_stmt, no_stmts, if_stmt, StmtList, call, expr_stmt, assign_stmt, ret_stmt, let_stmt,
  u64, no_args, i32, Param, TypeKind, Stmt, Program, FnDecl, ExprList, Expr,
}
use nullprt.Aegc0.Expressions.Grammar.{SpellsArgs, Spells}

-- One stretch of tokens after another.
abbrev pub Seq : (List Token → Type 0) → (List Token → Type 0) → List Token → Type 0
Seq X Y ts = (us : List Token) × (vs : List Token) × X us × Y vs × (ts ≡ us ++ vs)

-- One token of that kind; an identifier with that text; a type.
abbrev pub Tok : TokenKind → List Token → Type 0
Tok k ts = (t : Token) × (is t.kind k ≡ true) × (ts ≡ t ∷ [])

abbrev pub Name : Bytes → List Token → Type 0
Name n ts = (t : Token) × (is t.kind ident ≡ true) × (t.text ≡ n) × (ts ≡ t ∷ [])

pub data TypeName : TypeKind → List Token → Type 0 where
  i32_name : {ts : List Token} → Name (codes "i32") ts → TypeName i32 ts
  u64_name : {ts : List Token} → Name (codes "u64") ts → TypeName u64 ts

-- The arguments of a call after its `(`.
pub data CallArgs : ExprList → List Token → Type 0 where
  none_given : {ts : List Token} → Tok rparen ts → CallArgs no_args ts
  given : {args : ExprList} {ts : List Token} → SpellsArgs args ts → CallArgs args ts

-- A condition in parentheses.
abbrev pub Cond : Expr → List Token → Type 0
Cond e = Seq (Tok lparen) (Seq (Spells 1 e) (Tok rparen))

-- An expression and the `;` behind it.
abbrev pub Ended : Expr → List Token → Type 0
Ended e = Seq (Spells 1 e) (Tok semi)

mutual
  pub data SpellsStmt : Stmt → List Token → Type 0 where
    let_rule :
        {n : Bytes} {ty : TypeKind} {e : Expr} {ts : List Token}
        → Seq
            (Tok kw_let)
            (Seq (Name n) (Seq (Tok colon) (Seq (TypeName ty) (Seq (Tok assign) (Ended e)))))
            ts
        → SpellsStmt (let_stmt n ty e) ts
    return_rule :
        {e : Expr} {ts : List Token} → Seq (Tok kw_return) (Ended e) ts → SpellsStmt (ret_stmt e) ts
    assign_rule :
        {n : Bytes} {e : Expr} {ts : List Token}
        → Seq (Name n) (Seq (Tok assign) (Ended e)) ts
        → SpellsStmt (assign_stmt n e) ts
    call_rule :
        {n : Bytes} {args : ExprList} {ts : List Token}
        → Seq (Name n) (Seq (Tok lparen) (Seq (CallArgs args) (Tok semi))) ts
        → SpellsStmt (expr_stmt (call n args)) ts
    if_rule :
        {e : Expr} {body : StmtList} {ts us : List Token}
        → Seq (Tok kw_if) (Cond e) ts
        → SpellsBlock body us
        → SpellsStmt (if_stmt e body no_stmts false) (ts ++ us)
    if_else_rule :
        {e : Expr} {body other : StmtList} {ts us vs ws : List Token}
        → Seq (Tok kw_if) (Cond e) ts
        → SpellsBlock body us
        → Tok kw_else vs
        → SpellsBlock other ws
        → SpellsStmt (if_stmt e body other true) (ts ++ (us ++ (vs ++ ws)))
    while_rule :
        {e : Expr} {body : StmtList} {ts us : List Token}
        → Seq (Tok kw_while) (Cond e) ts
        → SpellsBlock body us
        → SpellsStmt (while_stmt e body) (ts ++ us)

  pub data SpellsStmts : StmtList → List Token → Type 0 where
    no_more : SpellsStmts no_stmts []
    one_more :
        {s : Stmt} {rest : StmtList} {ts us : List Token}
        → SpellsStmt s ts
        → SpellsStmts rest us
        → SpellsStmts (stmt s rest) (ts ++ us)

  pub data SpellsBlock : StmtList → List Token → Type 0 where
    braces :
        {body : StmtList} {ts us vs : List Token}
        → Tok lbrace ts
        → SpellsStmts body us
        → Tok rbrace vs
        → SpellsBlock body (ts ++ (us ++ vs))

-- The parameters after the `(`, with the `)` behind them.
pub data SpellsParams : List Param → List Token → Type 0 where
  no_params : {ts : List Token} → Tok rparen ts → SpellsParams [] ts
  last_param :
      {n : Bytes} {ty : TypeKind} {ts : List Token}
      → Seq (Name n) (Seq (Tok colon) (Seq (TypeName ty) (Tok rparen))) ts
      → SpellsParams (record { name = n; ty = ty } ∷ []) ts
  more_params :
      {n : Bytes} {ty : TypeKind} {params : List Param} {ts us : List Token}
      → Seq (Name n) (Seq (Tok colon) (Seq (TypeName ty) (Tok comma))) ts
      → SpellsParams params us
      → SpellsParams (record { name = n; ty = ty } ∷ params) (ts ++ us)

-- The body of a function, or the `;` of one that is declared alone.
abbrev pub Body : FnDecl → List Token → Type 0
Body f = elim f.is_extern_c [ true ↦ Tok semi | false ↦ SpellsBlock f.body ]

-- What stands before the name of a function.
abbrev pub CText : List Token → Type 0
CText ts = (t : Token) × (is t.kind string ≡ true) × (t.text ≡ codes "C") × (ts ≡ t ∷ [])

abbrev pub Head : Bool → List Token → Type 0
Head true = Seq (Tok kw_extern) (Seq CText (Tok kw_fn))
Head false = Tok kw_fn

-- A function from its first keyword on.
abbrev pub SpellsFn : FnDecl → List Token → Type 0
SpellsFn f = Seq (Head f.is_extern_c) (
    Seq (Name f.name) (
      Seq (Seq (Tok lparen) (SpellsParams f.params))
        (Seq (Tok arrow) (Seq (TypeName f.ret) (Body f)))))

pub data SpellsProgram : Program → List Token → Type 0 where
  no_fns : SpellsProgram [] []
  one_fn :
      {f : FnDecl} {fns : Program} {ts us : List Token}
      → SpellsFn f ts
      → SpellsProgram fns us
      → SpellsProgram (f ∷ fns) (ts ++ us)
