-- ===== src/Aegc1/Ast.antt =====
-- The syntax tree of `aegc1` (src/self/aegc1/frontend/ast.h) and its check (ast_validate.c).
use nullprt.Base.{ℕ, Bool, false, not, ◌&&◌, ◌||◌, ◌==◌, ltb, List, [], length, all}
use nullprt.Aegc1.Token.{StringView, SourcePos, Span}

pub data ItemKind : Type 0 where
  fn struct enum import macro : ItemKind

abbrev pub item_value : ItemKind → ℕ
item_value fn = 1
item_value struct = 2
item_value enum = 3
item_value import = 4
item_value macro = 5

-- `a == b` of two kinds of items.
abbrev pub is_kind : ItemKind → ItemKind → Bool
is_kind a b = item_value a == item_value b

pub record TypeExpr : Type 0 where
  pub raw : StringView
  pub has_where : Bool
  pub has_effect : Bool
  pub has_session : Bool
  pub has_exists : Bool
  pub has_linear : Bool
  pub has_dependent : Bool
  pub has_refinement : Bool

pub record AstItem : Type 0 where
  pub kind : ItemKind
  pub name : StringView
  pub is_generic : Bool
  pub is_extern_c : Bool
  pub is_async : Bool
  pub is_generator : Bool
  pub is_coroutine : Bool
  pub has_contract : Bool
  pub has_invariant : Bool
  pub has_macro_recursion_limit : Bool
  pub has_proc_macro_bridge : Bool
  pub has_hygiene_attr : Bool
  pub has_where : Bool
  pub has_cfg : Bool
  pub has_macro_attrs : Bool
  pub feature_bits : ℕ
  pub signature_type : TypeExpr
  pub span : Span

pub record AstModule : Type 0 where
  pub items : List AstItem
  pub feature_bits : ℕ
  pub nested_pattern_depth_limit : ℕ

abbrev pub empty_view : StringView
empty_view = record { ptr = 0; bytes = [] }

-- What `memset` leaves of an item, with the kind that every branch stores before the item is kept.
abbrev pub blank_item : ItemKind → SourcePos → Bool → AstItem
blank_item kind start attrs = record {
  kind = kind;
  name = empty_view;
  is_generic = false;
  is_extern_c = false;
  is_async = false;
  is_generator = false;
  is_coroutine = false;
  has_contract = false;
  has_invariant = false;
  has_macro_recursion_limit = false;
  has_proc_macro_bridge = false;
  has_hygiene_attr = false;
  has_where = false;
  has_cfg = attrs;
  has_macro_attrs = attrs;
  feature_bits = 0;
  signature_type = record {
    raw = empty_view;
    has_where = false;
    has_effect = false;
    has_session = false;
    has_exists = false;
    has_linear = false;
    has_dependent = false;
    has_refinement = false;
  };
  span = record { start = start; finish = record { line = 0; col = 0 } };
}

-- The three tests of the loop in `a1_ast_validate`.
unfoldable pub item_ok : AstItem → Bool
item_ok it =
    not (length it.name.bytes == 0)
    && (not (it.is_coroutine && not it.is_async)
        && not (it.has_proc_macro_bridge && not (is_kind it.kind macro)))

abbrev pub limit_ok : ℕ → Bool
limit_ok limit = not (limit == 0 || ltb 256 limit)

-- `a1_ast_validate` of a module that is there.
unfoldable pub ast_validate : AstModule → Bool
ast_validate m =
    not (length m.items == 0) && (limit_ok m.nested_pattern_depth_limit && all item_ok m.items)
