-- ===== src/Aegc0/Expressions/Grammar.antt =====
-- The grammar of the seed compiler's expressions, by levels of precedence: what
-- src/seed/aegc0/parser.c is to read.
use nullprt.Base.{[], ◌∷◌, true, codes, Bytes, ◌+◌, ◌++◌, ◌≡◌, arith, ◌≤◌, List, Bool, ℕ}
use nullprt.Aegc0.Ast.{
  bop_mod, bop_div, bop_mul, bop_sub, bop_add, bop_gte, bop_gt, bop_lte, bop_lt, bop_neq, bop_eq,
  bop_and, bop_or, BinaryOp, arg, binary, uop_not, uop_neg, unary, ExprList, no_args, call, var,
  int_lit, Expr,
}
use nullprt.Aegc0.Expressions.{
  percent, slash, star, plus, gte, gt, lte, lt, neq, eqeq, andand, oror, comma,
}
use nullprt.Aegc0.Token.{bang, minus, rparen, lparen, ident, int, is, TokenKind, Token}

-- The operators have levels from 1 to 6, and what binds tighter has level 7.
abbrev pub tightest : ℕ
tightest = 7

abbrev pub kind_of : Token → TokenKind → Bool
kind_of t k = is t.kind k

-- The operators: the token, the level, what it means and its sign.
pub data Operator : TokenKind → ℕ → BinaryOp → Bytes → Type 0 where
  op_or : Operator oror 1 bop_or (codes "||")
  op_and : Operator andand 2 bop_and (codes "&&")
  op_eq : Operator eqeq 3 bop_eq (codes "==")
  op_neq : Operator neq 3 bop_neq (codes "!=")
  op_lt : Operator lt 4 bop_lt (codes "<")
  op_lte : Operator lte 4 bop_lte (codes "<=")
  op_gt : Operator gt 4 bop_gt (codes ">")
  op_gte : Operator gte 4 bop_gte (codes ">=")
  op_add : Operator plus 5 bop_add (codes "+")
  op_sub : Operator minus 5 bop_sub (codes "-")
  op_mul : Operator star 6 bop_mul (codes "*")
  op_div : Operator slash 6 bop_div (codes "/")
  op_mod : Operator percent 6 bop_mod (codes "%")

abbrev pub NoOperator : TokenKind → Type 0
NoOperator k = (l : ℕ) (op : BinaryOp) (sign : Bytes) → ¬ Operator k l op sign

-- The tokens spell the expression, at that level or a tighter one. An operator stands between a
-- left operand of its level and a right operand of a tighter one, so that it groups to the left.
mutual
  pub data Spells : ℕ → Expr → List Token → Type 0 where
    literal :
        {m : ℕ} (t : Token)
        → m ≤ tightest
        → kind_of t int ≡ true
        → Spells m (int_lit t.int_value) (t ∷ [])
    variable :
        {m : ℕ} (t : Token) → m ≤ tightest → kind_of t ident ≡ true → Spells m (var t.text) (t ∷ [])
    empty_call :
        {m : ℕ} (t o c : Token)
        → m ≤ tightest
        → kind_of t ident ≡ true
        → kind_of o lparen ≡ true
        → kind_of c rparen ≡ true
        → Spells m (call t.text no_args) (t ∷ o ∷ c ∷ [])
    full_call :
        {m : ℕ} (t o : Token) {args : ExprList} {ts : List Token}
        → m ≤ tightest
        → kind_of t ident ≡ true
        → kind_of o lparen ≡ true
        → SpellsArgs args ts
        → Spells m (call t.text args) (t ∷ o ∷ ts)
    parens :
        {m : ℕ} (o c : Token) {e : Expr} {ts : List Token}
        → m ≤ tightest
        → kind_of o lparen ≡ true
        → Spells 1 e ts
        → kind_of c rparen ≡ true
        → Spells m e (o ∷ (ts ++ (c ∷ [])))
    negation :
        {m : ℕ} (o : Token) {e : Expr} {ts : List Token}
        → m ≤ tightest
        → kind_of o minus ≡ true
        → Spells tightest e ts
        → Spells m (unary uop_neg e) (o ∷ ts)
    complement :
        {m : ℕ} (o : Token) {e : Expr} {ts : List Token}
        → m ≤ tightest
        → kind_of o bang ≡ true
        → Spells tightest e ts
        → Spells m (unary uop_not e) (o ∷ ts)
    operation :
        {m l : ℕ} (o : Token) {op : BinaryOp} {sign : Bytes} {lhs rhs : Expr} {ts us : List Token}
        → m ≤ l
        → Operator o.kind l op sign
        → Spells l lhs ts
        → Spells (l + 1) rhs us
        → Spells m (binary op lhs rhs) (ts ++ (o ∷ us))

  -- Arguments with commas between them, and the `)` behind them.
  pub data SpellsArgs : ExprList → List Token → Type 0 where
    last :
        (c : Token) {e : Expr} {ts : List Token}
        → Spells 1 e ts
        → kind_of c rparen ≡ true
        → SpellsArgs (arg e no_args) (ts ++ (c ∷ []))
    also :
        (c : Token) {e : Expr} {args : ExprList} {ts us : List Token}
        → Spells 1 e ts
        → kind_of c comma ≡ true
        → SpellsArgs args us
        → SpellsArgs (arg e args) (ts ++ (c ∷ us))

-- What stands at a level stands at every looser one.
pub Spells-loosen : {m l : ℕ} {e : Expr} {ts : List Token} → m ≤ l → Spells l e ts → Spells m e ts
Spells-loosen h (literal t k a) = literal t (omega arith) a
Spells-loosen h (variable t k a) = variable t (omega arith) a
Spells-loosen h (empty_call t o c k a b d) = empty_call t o c (omega arith) a b d
Spells-loosen h (full_call t o k a b s) = full_call t o (omega arith) a b s
Spells-loosen h (parens o c k a s b) = parens o c (omega arith) a s b
Spells-loosen h (negation o k a s) = negation o (omega arith) a s
Spells-loosen h (complement o k a s) = complement o (omega arith) a s
Spells-loosen h (operation o k a s t) = operation o (omega arith) a s t
