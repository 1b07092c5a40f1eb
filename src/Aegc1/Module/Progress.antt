-- ===== src/Aegc1/Module/Progress.antt =====
-- `a1_parse_module` reads its whole input (frontend/parser.c).
use mathlib.Core.Path.{sym, subst}
use nullprt.Aegc1.Ast.{macro, blank_item, AstItem, AstModule}
use nullprt.Base.{
  ap, ◌||◌, while_inv, if◌then◌else◌, inr, ◌<◌, inl, ◌⊎◌, arith, Bool-cases, false, ◌≡◌, not, true,
  Bool,
}
use nullprt.Aegc1.Module.{
  take_name, parse_module, at_macro, ModuleState, module_step, skip_signature, parse_type_item,
  parse_macro, parse_import, parse_fn, parse_declaration,
}
use nullprt.Aegc1.Token.{
  kw_where, lbrace, arrow, rparen, lparen, kw_enum, kw_struct, hash, kw_import, kw_fn, kw_extern,
  semi, kw_async, is, SourcePos, TokenKind, eof, ident,
}
use nullprt.Aegc1.Parser.{
  skip_balanced, parse_attributes_or_cfg, Parser, kind_is, advance, parse_error, accept,
}
use nullprt.Aegc1.Parser.Runs.{
  skip_balanced-Runs, parse_attributes_or_cfg_none, parse_attributes_or_cfg_shrinks,
  parse_attributes_or_cfg_lem, parse_where_clause_if_any-Runs, Runs-le, skip_until-Runs,
  skip_item_body-Runs, parse_generic_params_if_any-Runs, left, accept-Runs, advance_shrinks,
  Runs-trans, Runs, read, here, fail,
}

take_name-Runs : (p : Parser) (it : AstItem) → Runs p (take_name p it).0
unfolding take_name
take_name-Runs p it = elim (Bool-cases (kind_is ident p)) [
  | inl e ↦ rw e (read here)
  | inr e ↦ rw e here
]

parse_import-Runs : (p : Parser) (it : AstItem) (m : AstModule) → Runs p (parse_import p it m).at
unfolding parse_import
parse_import-Runs p it m =
    Runs-trans (take_name-Runs p it)
      (Runs-trans (skip_until-Runs (λ k. is k semi) _) (accept-Runs semi _))

skip_signature-Runs : (p : Parser) → Runs p (skip_signature p)
unfolding skip_signature
skip_signature-Runs p = elim (Bool-cases (accept arrow q).1) [
  | inl e ↦
      rw e (Runs-trans typed (skip_until-Runs (λ k. is k lbrace || (is k semi || is k kw_where)) _))
  | inr e ↦ rw e typed
]
  where
    q : Parser
    q = if kind_is lparen p then skip_balanced lparen rparen p else p

    params : Runs p q
    params = elim (Bool-cases (kind_is lparen p)) [
      | inl e ↦ rw e (skip_balanced-Runs lparen rparen p)
      | inr e ↦ rw e here
    ]

    typed : Runs p (accept arrow q).0
    typed = Runs-trans params (accept-Runs arrow q)

parse_fn-Runs : (p : Parser) (it : AstItem) (m : AstModule) → Runs p (parse_fn p it m).at
unfolding parse_fn
parse_fn-Runs p it m = Runs-trans (take_name-Runs p it) (
    Runs-trans (parse_generic_params_if_any-Runs _) (
      Runs-trans (skip_signature-Runs _)
        (Runs-trans (parse_where_clause_if_any-Runs _) (skip_item_body-Runs _))))

parse_type_item-Runs :
    (p : Parser) (it : AstItem) (m : AstModule) → Runs p (parse_type_item p it m).at
unfolding parse_type_item
parse_type_item-Runs p it m =
    Runs-trans (take_name-Runs p it)
      (Runs-trans (parse_generic_params_if_any-Runs _) (skip_item_body-Runs _))

parse_macro-Runs :
    (p : Parser) (it : AstItem) (m : AstModule) → Runs (advance p) (parse_macro p it m).at
unfolding parse_macro
parse_macro-Runs p it m = skip_item_body-Runs (advance p)

-- A part of the parser that reads on from `p` to `q`, and reads a token if there is one.
abbrev Consumes : Parser → Parser → Type 0
Consumes p q = Runs p q × (kind_is eof p ≡ false → left q < left p)

Consumes-read : (p q : Parser) → Runs (advance p) q → Consumes p q
Consumes-read p q r = (Runs-trans (read here) r, λ e. omega (arith, Runs-le r, advance_shrinks p e))

Consumes-error : (p : Parser) → Consumes p (advance (parse_error p))
Consumes-error p = (read (fail here), λ e. advance_shrinks (parse_error p) e)

-- What `accept` leaves is either as it was, or was read over.
accept-left :
    (k : TokenKind) (p : Parser)
    → kind_is eof p ≡ false
    → (kind_is eof (accept k p).0 ≡ false) ⊎ (left (accept k p).0 < left p)
unfolding accept
accept-left k p h = elim (Bool-cases (kind_is k p)) [
  | inl e ↦ inr (rw e (advance_shrinks p h))
  | inr e ↦ inl (rw e h)
]

Consumes-accept : (k : TokenKind) (p q : Parser) → Consumes (accept k p).0 q → Consumes p q
Consumes-accept k p q c = (
  Runs-trans (accept-Runs k p) c.0,
  λ e. elim (accept-left k p e) [
    | inl more ↦ omega (arith, c.1 more, Runs-le (accept-Runs k p))
    | inr less ↦ omega (arith, Runs-le c.0)
  ],
)

parse_declaration-Consumes :
    (p : Parser) (start : SourcePos) (attrs : Bool) (m : AstModule)
    → Consumes p (parse_declaration p start attrs m).at
unfolding parse_declaration
parse_declaration-Consumes p start attrs m =
    Consumes-accept kw_extern p _ (Consumes-accept kw_async (accept kw_extern p).0 _ branches)
  where
    p2 : Parser
    p2 = (accept kw_async (accept kw_extern p).0).0

    branches : Consumes p2 (parse_declaration p start attrs m).at
    branches = elim (Bool-cases (kind_is kw_fn p2)) [
      | inl e ↦ rw e (Consumes-read p2 _ (parse_fn-Runs _ _ m))
      | inr e ↦ elim (Bool-cases (kind_is kw_struct p2)) [
        | inl e1 ↦ rw (e, e1) (Consumes-read p2 _ (parse_type_item-Runs _ _ m))
        | inr e1 ↦ elim (Bool-cases (kind_is kw_enum p2)) [
          | inl e2 ↦ rw (e, e1, e2) (Consumes-read p2 _ (parse_type_item-Runs _ _ m))
          | inr e2 ↦ elim (Bool-cases (at_macro p2)) [
            | inl e3 ↦
                rw (e, e1, e2, e3)
                  (Consumes-read p2 _ (parse_macro-Runs p2 (blank_item macro start attrs) m))
            | inr e3 ↦ rw (e, e1, e2, e3) (Consumes-error p2)
          ]
        ]
      ]
    ]

-- A round of the loop at any token but the last reads at least one token.
pub module_step-Consumes : (s : ModuleState) → Consumes s.at (module_step s).at
unfolding module_step
module_step-Consumes s = (
  Runs-trans attributes item.0,
  λ e. elim (Bool-cases (kind_is hash s.at)) [
    | inl h ↦ omega (arith, parse_attributes_or_cfg_shrinks s.at h, Runs-le item.0)
    | inr h ↦
        let same : p ≡ s.at = parse_attributes_or_cfg_none s.at h in
        omega (arith, ap left same, item.1 (subst (λ q. kind_is eof q ≡ false) (sym same) e))
  ],
)
  where
    p : Parser
    p = parse_attributes_or_cfg s.at

    attributes : Runs s.at p
    attributes = (parse_attributes_or_cfg_lem s.at).0

    item : Consumes p (module_step s).at
    item = elim (Bool-cases (kind_is kw_import p)) [
      | inl e ↦ rw e (Consumes-read p _ (parse_import-Runs (advance p) _ s.ast))
      | inr e ↦ rw e (parse_declaration-Consumes p _ _ s.ast)
    ]

-- The parser ends where the lexer gives `eof`, it only reads tokens and records errors on the
-- way, and the loop over items never runs out of rounds.
pub parse_module_stops :
    (p : Parser) → Runs p (parse_module p).at × (kind_is eof (parse_module p).at ≡ true)
unfolding parse_module
parse_module_stops p = (loop.0, ground (arith, loop.1))
  where
    loop : Runs p (parse_module p).at × (not (kind_is eof (parse_module p).at) ≡ false)
    loop =
        while_inv (λ s. Runs p s.at) (λ s. left s.at) (λ s. not (kind_is eof s.at)) module_step
          (λ s r t. let c = module_step-Consumes s in (Runs-trans r c.0, c.1 (ground arith))) _ _
          (ground arith) here
