-- ===== src/Aegc1/Module/Items.antt =====
-- What holds of every item that `a1_parse_module` keeps (frontend/parser.c).
use nullprt.Aegc1.Module.{
  finish_item, name_flags, parse_declaration, parse_fn, parse_import, parse_macro, parse_module,
  parse_type_item, take_name, at_macro, skip_signature, ModuleState, module_step, close_span,
}
use nullprt.Aegc1.Parser.{
  infer_item_semantics, parse_where_clause_if_any, parse_generic_params_if_any, skip_item_body,
  advance, parse_attributes_or_cfg, accept, nested_depth_limit, Parser, kind_is,
}
use nullprt.Base.{
  [], ◌∷◌, true, false, inl, inr, refl, while_keeps, List, All-append, bit_or, arith, All,
  Bool-cases, if◌then◌else◌, ◌==◌, ◌||◌, occurs, ◌&&◌, ◌≡◌, ℕ, codes, Bool, Bytes,
}
use nullprt.Aegc1.Token.{
  kw_where, lt, kw_enum, kw_struct, kw_fn, kw_import, kw_extern, kw_async, Span, StringView,
  SourcePos, ident,
}
use nullprt.Aegc1.Ast.{
  enum, struct, macro, import, ItemKind, blank_item, is_kind, AstItem, AstModule, fn,
}
use nullprt.Aegc1.Features.Laws.{has-or, has-zero, has-add_if}
use nullprt.Aegc1.Features.{infer_feature_bits, has}
use nullprt.Aegc1.Feature

abbrev pub named : AstItem → Bytes → Bool
named it word = occurs word it.name.bytes

-- The marks of an item follow from its kind, its name and the words before it.
pub record IsParsed (it : AstItem) : Type 0 where
  pub bridge : it.has_proc_macro_bridge ≡ (is_kind it.kind fn && named it (codes "proc"))
  pub coroutine :
      it.is_coroutine ≡ (is_kind it.kind fn && (named it (codes "co_") || named it (codes "coro")))
  pub contract :
      it.has_contract
      ≡ (is_kind it.kind fn && (named it (codes "contract") || named it (codes "require")))
  pub invariant : it.has_invariant ≡ (is_kind it.kind fn && named it (codes "invariant"))
  pub generator :
      it.is_generator ≡ (is_kind it.kind fn && (named it (codes "gen") || named it (codes "yield")))
  pub recursion_limit :
      it.has_macro_recursion_limit ≡ (is_kind it.kind fn && named it (codes "macro"))
  pub hygiene : it.has_hygiene_attr ≡ (is_kind it.kind fn && named it (codes "hygiene"))
  pub extern_fn : it.is_extern_c ≡ true → is_kind it.kind fn ≡ true
  pub async_fn : it.is_async ≡ true → is_kind it.kind fn ≡ true
  pub where_fn : it.has_where ≡ true → is_kind it.kind fn ≡ true
  pub cfg : it.has_cfg ≡ it.has_macro_attrs
  pub features :
      (k : ℕ)
      → has it.feature_bits k ≡ (
          (it.is_async && k == Feature.async_cancel)
          || ((it.is_generator && k == Feature.generator_resume)
              || ((it.is_coroutine && k == Feature.coroutine_sched)
                  || (it.has_where && k == Feature.refinement_type))))

take_name_item :
    (p : Parser) (it : AstItem)
    → (take_name p it).1 ≡ record it { name = if kind_is ident p then p.cur.text else it.name }
unfolding take_name
take_name_item p it = elim (Bool-cases (kind_is ident p)) [ inl e ↦ rw e refl | inr e ↦ rw e refl ]

-- What an item has before its features are inferred.
record IsMarked (it : AstItem) : Type 0 where
  bridge : it.has_proc_macro_bridge ≡ (is_kind it.kind fn && named it (codes "proc"))
  coroutine :
      it.is_coroutine ≡ (is_kind it.kind fn && (named it (codes "co_") || named it (codes "coro")))
  contract :
      it.has_contract
      ≡ (is_kind it.kind fn && (named it (codes "contract") || named it (codes "require")))
  invariant : it.has_invariant ≡ (is_kind it.kind fn && named it (codes "invariant"))
  generator :
      it.is_generator ≡ (is_kind it.kind fn && (named it (codes "gen") || named it (codes "yield")))
  recursion_limit : it.has_macro_recursion_limit ≡ (is_kind it.kind fn && named it (codes "macro"))
  hygiene : it.has_hygiene_attr ≡ (is_kind it.kind fn && named it (codes "hygiene"))
  extern_fn : it.is_extern_c ≡ true → is_kind it.kind fn ≡ true
  async_fn : it.is_async ≡ true → is_kind it.kind fn ≡ true
  where_fn : it.has_where ≡ true → is_kind it.kind fn ≡ true
  cfg : it.has_cfg ≡ it.has_macro_attrs
  no_features : it.feature_bits ≡ 0

or_swap : (a b c d : Bool) → (((a || b) || c) || d) ≡ (a || (b || (c || d)))
or_swap a b c d = ground arith

infer_item_semantics-IsParsed :
    (p : Parser) (it : AstItem) → IsMarked it → IsParsed (close_span p (infer_item_semantics it))
unfolding infer_item_semantics
infer_item_semantics-IsParsed p it h = record {
  bridge = h.bridge;
  coroutine = h.coroutine;
  contract = h.contract;
  invariant = h.invariant;
  generator = h.generator;
  recursion_limit = h.recursion_limit;
  hygiene = h.hygiene;
  extern_fn = h.extern_fn;
  async_fn = h.async_fn;
  where_fn = h.where_fn;
  cfg = h.cfg;
  features = λ k.
      rw
        (
          h.no_features,
          has-add_if it.has_where Feature.refinement_type,
          has-add_if it.is_coroutine Feature.coroutine_sched,
          has-add_if it.is_generator Feature.generator_resume,
          has-add_if it.is_async Feature.async_cancel,
          has-zero,
        )
        (or_swap (it.is_async && k == Feature.async_cancel)
          (it.is_generator && k == Feature.generator_resume)
          (it.is_coroutine && k == Feature.coroutine_sched)
          (it.has_where && k == Feature.refinement_type));
}

name_flags-IsMarked :
    (start : SourcePos) (attrs generic external async clause : Bool) (name : StringView)
    → IsMarked
        (record (name_flags (record (blank_item fn start attrs) {
          is_extern_c = external;
          is_async = async;
          name = name;
        })) { is_generic = generic; has_where = clause })
unfolding name_flags
name_flags-IsMarked start attrs generic external async clause name = record {
  bridge = refl;
  coroutine = refl;
  contract = refl;
  invariant = refl;
  generator = refl;
  recursion_limit = refl;
  hygiene = refl;
  extern_fn = λ _. refl;
  async_fn = λ _. refl;
  where_fn = λ _. refl;
  cfg = refl;
  no_features = refl;
}

type_item-IsMarked :
    (kind : ItemKind) (start : SourcePos) (attrs generic : Bool) (name : StringView)
    → is_kind kind fn ≡ false
    → IsMarked (record (blank_item kind start attrs) { name = name; is_generic = generic })
type_item-IsMarked kind start attrs generic name h = record {
  bridge = rw h;
  coroutine = rw h;
  contract = rw h;
  invariant = rw h;
  generator = rw h;
  recursion_limit = rw h;
  hygiene = rw h;
  extern_fn = λ e. cc;
  async_fn = λ e. cc;
  where_fn = λ e. cc;
  cfg = refl;
  no_features = refl;
}

-- The features of an item are features of its module.
abbrev pub Within : ℕ → AstItem → Type 0
Within bits it = (k : ℕ) → has it.feature_bits k ≡ true → has bits k ≡ true

pub record IsParsedModule (src : Bytes) (m : AstModule) : Type 0 where
  pub items : All IsParsed m.items
  pub within : All (Within m.feature_bits) m.items
  pub mentioned : (k : ℕ) → has (infer_feature_bits src) k ≡ true → has m.feature_bits k ≡ true
  pub limit : m.nested_pattern_depth_limit ≡ nested_depth_limit src

Within-or :
    (a b : ℕ) (items : List AstItem) → All (Within a) items → All (Within (bit_or a b)) items
Within-or a b [] h = tt
Within-or a b (it ∷ items) h = (λ k e. ground (arith, has-or a b k, h.0 k), Within-or a b items h.1)

finish_item-IsParsedModule :
    (src : Bytes) (p : Parser) (it : AstItem) (m : AstModule)
    → IsMarked it
    → IsParsedModule src m
    → IsParsedModule src (finish_item p it m).ast
unfolding finish_item
finish_item-IsParsedModule src p it m marked h =
    let it' = infer_item_semantics it in
    record {
      items = All-append IsParsed m.items _ h.items (infer_item_semantics-IsParsed p it marked, tt);
      within =
          All-append (Within (bit_or m.feature_bits it'.feature_bits)) m.items _
            (Within-or m.feature_bits it'.feature_bits m.items h.within)
            (λ k e. ground (arith, has-or m.feature_bits it'.feature_bits k), tt);
      mentioned = λ k e. ground (arith, has-or m.feature_bits it'.feature_bits k, h.mentioned k);
      limit = h.limit;
    }

import-IsParsed :
    (start : SourcePos) (attrs : Bool) (name : StringView) (span : Span)
    → IsParsed (record (blank_item import start attrs) { name = name; span = span })
import-IsParsed start attrs name span = record {
  bridge = refl;
  coroutine = refl;
  contract = refl;
  invariant = refl;
  generator = refl;
  recursion_limit = refl;
  hygiene = refl;
  extern_fn = λ e. cc;
  async_fn = λ e. cc;
  where_fn = λ e. cc;
  cfg = refl;
  features = λ k. has-zero k;
}

parse_import-IsParsedModule :
    (src : Bytes) (p : Parser) (start : SourcePos) (attrs : Bool) (m : AstModule)
    → IsParsedModule src m
    → IsParsedModule src (parse_import p (blank_item import start attrs) m).ast
unfolding parse_import
parse_import-IsParsedModule src p start attrs m h = rw take_name_item (record {
  items = All-append IsParsed m.items _ h.items (import-IsParsed start attrs _ _, tt);
  within = All-append (Within m.feature_bits) m.items _ h.within (λ k e. cc (has-zero k), tt);
  mentioned = h.mentioned;
  limit = h.limit;
})

parse_fn-IsParsedModule :
    (src : Bytes) (p : Parser) (start : SourcePos) (attrs external async : Bool) (m : AstModule)
    → IsParsedModule src m
    → IsParsedModule src
        (parse_fn p
          (record (blank_item fn start attrs) { is_extern_c = external; is_async = async })
          m).ast
unfolding parse_fn
parse_fn-IsParsedModule src p start attrs external async m h =
    let it = record (blank_item fn start attrs) { is_extern_c = external; is_async = async } in
    let p1 = (take_name p it).0 in
    let p2 = skip_signature (parse_generic_params_if_any p1) in
    finish_item-IsParsedModule src (skip_item_body (parse_where_clause_if_any p2))
      (record (name_flags (take_name p it).1) {
        is_generic = kind_is lt p1;
        has_where = kind_is kw_where p2;
      })
      m (rw take_name_item (name_flags-IsMarked start attrs _ external async _ _)) h

parse_type_item-IsParsedModule :
    (src : Bytes) (p : Parser) (kind : ItemKind) (start : SourcePos) (attrs : Bool) (m : AstModule)
    → is_kind kind fn ≡ false
    → IsParsedModule src m
    → IsParsedModule src (parse_type_item p (blank_item kind start attrs) m).ast
unfolding parse_type_item
parse_type_item-IsParsedModule src p kind start attrs m other h =
    let it = blank_item kind start attrs in
    let p1 = (take_name p it).0 in
    finish_item-IsParsedModule src (skip_item_body (parse_generic_params_if_any p1))
      (record ((take_name p it).1) { is_generic = kind_is lt p1 }) m
      (rw take_name_item (type_item-IsMarked kind start attrs _ _ other)) h

parse_macro-IsParsedModule :
    (src : Bytes) (p : Parser) (start : SourcePos) (attrs : Bool) (m : AstModule)
    → IsParsedModule src m
    → IsParsedModule src (parse_macro p (blank_item macro start attrs) m).ast
unfolding parse_macro
parse_macro-IsParsedModule src p start attrs m h =
    finish_item-IsParsedModule src (skip_item_body (advance p))
      (record (blank_item macro start attrs) { name = p.cur.text }) m
      (type_item-IsMarked macro start attrs false _ refl) h

parse_declaration-IsParsedModule :
    (src : Bytes) (p : Parser) (start : SourcePos) (attrs : Bool) (m : AstModule)
    → IsParsedModule src m
    → IsParsedModule src (parse_declaration p start attrs m).ast
unfolding parse_declaration
parse_declaration-IsParsedModule src p start attrs m h = elim (Bool-cases (kind_is kw_fn p2)) [
  | inl e ↦ rw e (parse_fn-IsParsedModule src (advance p2) start attrs _ _ m h)
  | inr e ↦ elim (Bool-cases (kind_is kw_struct p2)) [
    | inl e1 ↦
        rw (e, e1) (parse_type_item-IsParsedModule src (advance p2) struct start attrs m refl h)
    | inr e1 ↦ elim (Bool-cases (kind_is kw_enum p2)) [
      | inl e2 ↦
          rw (e, e1, e2) (parse_type_item-IsParsedModule src (advance p2) enum start attrs m refl h)
      | inr e2 ↦ elim (Bool-cases (at_macro p2)) [
        | inl e3 ↦ rw (e, e1, e2, e3) (parse_macro-IsParsedModule src p2 start attrs m h)
        | inr e3 ↦ rw (e, e1, e2, e3) h
      ]
    ]
  ]
]
  where
    p2 : Parser
    p2 = (accept kw_async (accept kw_extern p).0).0

module_step-IsParsedModule :
    (src : Bytes) (s : ModuleState)
    → IsParsedModule src s.ast
    → IsParsedModule src (module_step s).ast
unfolding module_step
module_step-IsParsedModule src s h = elim (Bool-cases (kind_is kw_import p)) [
  | inl e ↦ rw e (parse_import-IsParsedModule src (advance p) _ _ s.ast h)
  | inr e ↦ rw e (parse_declaration-IsParsedModule src p _ _ s.ast h)
]
  where
    p : Parser
    p = parse_attributes_or_cfg s.at

-- Of every module that the parser gives: a function has the marks that its name gives (bridge,
-- coroutine, contract, invariant, generator, recursion limit and hygiene), and other items have
-- none of them, nor an async, an extern or a where mark; the cfg mark and the mark of attributes go
-- together; each item's features are those of its marks, and are its module's; the features that
-- `infer_feature_bits` finds in the text are the module's, and the depth limit is the one that
-- `nested_depth_limit` finds there.
pub parse_module-IsParsedModule : (p : Parser) → IsParsedModule p.src (parse_module p).ast
unfolding parse_module
parse_module-IsParsedModule p =
    while_keeps (λ s. IsParsedModule p.src s.ast) _ module_step
      (λ s h _. module_step-IsParsedModule p.src s h) _ _
      (record { items = tt; within = tt; mentioned = λ k e. e; limit = refl })
