-- ===== src/Aegc0/Sema/Typing/Sound.antt =====
-- The checks of src/seed/aegc0/sema.c accept what the typing rules allow, and nothing else.
use nullprt.Aegc0.Sema.{
  is_test, kind_or, require, same_kind, type_of_expr, vget, kind_of_binary, Sema, VarTable,
}
use nullprt.Base.{
  [], ◌∷◌, true, false, none, some, inl, inr, refl, ◌∙◌, ap, Option, Bool-cases, bytes_eq,
  bytes_eq_iff, arith, Bool, ◌↔◌, ◌≡◌, Bytes,
}
use nullprt.Aegc0.Ast.{
  bop_add, bop_sub, bop_mul, bop_div, bop_mod, bop_eq, bop_neq, bop_lt, bop_lte, bop_gt, bop_gte,
  bop_and, bop_or, Expr, BinaryOp, TypeKind, u64, void, i32, int_lit, var, call, unary, binary,
}
use nullprt.Aegc0.Sema.Typing.{
  test_or, test_and, test_gte, test_gt, test_lte, test_lt, test_neq, test_eq, arith_mod, arith_div,
  arith_mul, arith_sub, arith_add, IsTest, IsArith, of_arith, of_test, of_unary, of_call, of_var,
  of_int, HasKind, there, here, Bound,
}
use mathlib.Core.Path.{sym, subst}

pub vget-Bound : (vt : VarTable) (n : Bytes) (t : TypeKind) → Bound n t vt → vget vt n ≡ some t
unfolding vget
vget-Bound [] n t h = elim h [ ]
vget-Bound (v ∷ vt) n t (here e f) = rw ((bytes_eq_iff v.name n).1 e, vget) (ap some f)
vget-Bound (v ∷ vt) n t (there ne h) = elim (Bool-cases (bytes_eq v.name n)) [
  | inl e ↦ absurd (ne ((bytes_eq_iff v.name n).0 e))
  | inr e ↦ rw (e, vget) (vget-Bound vt n t h)
]

Bound-vget : (vt : VarTable) (n : Bytes) (t : TypeKind) → vget vt n ≡ some t → Bound n t vt
unfolding vget
Bound-vget [] n t e = absurd (ground arith)
Bound-vget (v ∷ vt) n t e = by_name (bytes_eq v.name n) refl (Bound-vget vt n t) e
  where
    by_name :
        (b : Bool)
        → bytes_eq v.name n ≡ b
        → (vget vt n ≡ some t → Bound n t vt)
        → (elim b [ true ↦ some v.ty | false ↦ vget vt n ]) ≡ some t
        → Bound n t (v ∷ vt)
    by_name true h i e = here ((bytes_eq_iff v.name n).0 h) (ground arith)
    by_name false h i e = there (λ same. ground (arith, h, (bytes_eq_iff v.name n).1 same)) (i e)

pub same_kind_refl : (t : TypeKind) → same_kind t t ≡ true
unfolding same_kind
same_kind_refl i32 = refl
same_kind_refl u64 = refl
same_kind_refl void = refl

pub same_kind-eq : (t u : TypeKind) → same_kind t u ≡ true → t ≡ u
unfolding same_kind
same_kind-eq i32 i32 e = refl
same_kind-eq u64 u64 e = refl
same_kind-eq void void e = refl
same_kind-eq _ _ e = absurd (ground arith)

pub require-ok :
    (b : Bool) (s : Sema) → (require b s).had_error ≡ false → (b ≡ true) × (s.had_error ≡ false)
unfolding require
require-ok true s h = (refl, h)
require-ok false s h = absurd (ground arith)

is_test_iff : (op : BinaryOp) → (is_test op ≡ true → IsTest op) × (is_test op ≡ false → IsArith op)
unfolding is_test
is_test_iff bop_add = (λ e. cc, λ e. arith_add)
is_test_iff bop_sub = (λ e. cc, λ e. arith_sub)
is_test_iff bop_mul = (λ e. cc, λ e. arith_mul)
is_test_iff bop_div = (λ e. cc, λ e. arith_div)
is_test_iff bop_mod = (λ e. cc, λ e. arith_mod)
is_test_iff bop_eq = (λ e. test_eq, λ e. cc)
is_test_iff bop_neq = (λ e. test_neq, λ e. cc)
is_test_iff bop_lt = (λ e. test_lt, λ e. cc)
is_test_iff bop_lte = (λ e. test_lte, λ e. cc)
is_test_iff bop_gt = (λ e. test_gt, λ e. cc)
is_test_iff bop_gte = (λ e. test_gte, λ e. cc)
is_test_iff bop_and = (λ e. test_and, λ e. cc)
is_test_iff bop_or = (λ e. test_or, λ e. cc)

IsTest-is_test : {op : BinaryOp} → IsTest op → is_test op ≡ true
unfolding is_test
IsTest-is_test test_eq = refl
IsTest-is_test test_neq = refl
IsTest-is_test test_lt = refl
IsTest-is_test test_lte = refl
IsTest-is_test test_gt = refl
IsTest-is_test test_gte = refl
IsTest-is_test test_and = refl
IsTest-is_test test_or = refl

IsArith-is_test : {op : BinaryOp} → IsArith op → is_test op ≡ false
unfolding is_test
IsArith-is_test arith_add = refl
IsArith-is_test arith_sub = refl
IsArith-is_test arith_mul = refl
IsArith-is_test arith_div = refl
IsArith-is_test arith_mod = refl

kind_of_binary_test :
    (op : BinaryOp) (l : TypeKind) (r : TypeKind × Sema)
    → is_test op ≡ true
    → kind_of_binary op l r ≡ (i32, r.1)
kind_of_binary_test op l (r, s) h = rw (h, kind_of_binary) refl

kind_of_binary_arith :
    (op : BinaryOp) (l : TypeKind) (r : TypeKind × Sema)
    → is_test op ≡ false
    → kind_of_binary op l r ≡ (l, require (same_kind l r.0) r.1)
kind_of_binary_arith op l (r, s) h = rw (h, kind_of_binary) refl

pub HasKind-run :
    {vt : VarTable} {e : Expr} {t : TypeKind}
    → HasKind vt e t
    → (s : Sema) → type_of_expr vt e s ≡ (t, s)
unfolding type_of_expr kind_or require
HasKind-run of_int s = refl
HasKind-run (of_var h) s = rw (vget-Bound _ _ _ h) refl
HasKind-run of_call s = refl
HasKind-run (of_unary h) s = HasKind-run h s
HasKind-run (of_test {op} {t} {u} k h i) s =
    rw (HasKind-run h s, HasKind-run i s) (kind_of_binary_test op t (u, s) (IsTest-is_test k))
HasKind-run {t} (of_arith {op} k h i) s =
    rw (HasKind-run h s, HasKind-run i s)
      (kind_of_binary_arith op t (t, s) (IsArith-is_test k) ∙ rw (same_kind_refl t) refl)

-- What holds after a run that leaves no error.
abbrev pub Right : VarTable → Expr → Sema → TypeKind × Sema → Type 0
Right vt e s r = HasKind vt e r.0 × (s.had_error ≡ false)

binary-Right :
    (vt : VarTable) (op : BinaryOp) (lhs rhs : Expr) (s : Sema) (l : TypeKind × Sema)
    (r : TypeKind × Sema)
    → (l.1.had_error ≡ false → Right vt lhs s l)
    → (r.1.had_error ≡ false → Right vt rhs l.1 r)
    → (kind_of_binary op l.0 r).1.had_error ≡ false
    → Right vt (binary op lhs rhs) s (kind_of_binary op l.0 r)
binary-Right vt op lhs rhs s l r f g h = elim (Bool-cases (is_test op)) [
  | inl e ↦
      let eq = kind_of_binary_test op l.0 r e in
      let y = g (subst (λ x. x.1.had_error ≡ false) eq h) in
      let x = f y.1 in
      subst (Right vt (binary op lhs rhs) s) (sym eq) (of_test ((is_test_iff op).0 e) x.0 y.0, x.1)
  | inr e ↦
      let eq = kind_of_binary_arith op l.0 r e in
      let ok = require-ok _ r.1 (subst (λ x. x.1.had_error ≡ false) eq h) in
      let y = g ok.1 in
      let x = f y.1 in
      let same = subst (λ t. HasKind vt rhs t) (sym (same_kind-eq _ _ ok.0)) y.0 in
      subst (Right vt (binary op lhs rhs) s) (sym eq)
        (of_arith ((is_test_iff op).1 e) x.0 same, x.1)
]

pub kind_or-Right :
    (vt : VarTable) (n : Bytes) (o : Option TypeKind) (s : Sema)
    → vget vt n ≡ o
    → (kind_or o s).1.had_error ≡ false
    → Bound n (kind_or o s).0 vt × (s.had_error ≡ false)
unfolding kind_or require
kind_or-Right vt n (some t) s e h = (Bound-vget vt n t e, h)
kind_or-Right vt n none s e h = absurd (ground arith)

pub type_of_expr-Right :
    (vt : VarTable) (e : Expr) (s : Sema)
    → (type_of_expr vt e s).1.had_error ≡ false
    → Right vt e s (type_of_expr vt e s)
unfolding type_of_expr
type_of_expr-Right vt (int_lit n) s h = (of_int, h)
type_of_expr-Right vt (var n) s h = let x = kind_or-Right vt n _ s refl h in (of_var x.0, x.1)
type_of_expr-Right vt (call n args) s h = (of_call, h)
type_of_expr-Right vt (unary op e) s h = let x = type_of_expr-Right vt e s h in (of_unary x.0, x.1)
type_of_expr-Right vt (binary op lhs rhs) s h =
    binary-Right vt op lhs rhs s _ _ (type_of_expr-Right vt lhs s) (type_of_expr-Right vt rhs _) h

-- The check of an expression notes no error just if there was none and the expression has a kind
-- by the rules; then it gives that kind and leaves the state alone. An undeclared name is an error
-- except among the arguments of a call.
pub type_of_expr_iff :
    (vt : VarTable) (e : Expr) (s : Sema)
    → ((type_of_expr vt e s).1.had_error ≡ false)
      ↔ ((s.had_error ≡ false) × ((t : TypeKind) × HasKind vt e t × (type_of_expr vt e s ≡ (t, s))))
type_of_expr_iff vt e s = (
  λ h. let x = type_of_expr-Right vt e s h in (x.1, (_, x.0, HasKind-run x.0 s)),
  λ (h, (t, k, eq)). subst (λ r. r.1.had_error ≡ false) (sym eq) h,
)
