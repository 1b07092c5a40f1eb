-- ===== src/Aegc1/Ir/Lowered.antt =====
-- What lowering and the protection passes make of a module (ir/nprt_ir.c, ir/protect_passes.c).
use nullprt.Aegc1.Ast.{limit_ok, AstItem, AstModule}
use nullprt.Base.{
  suc, [], ◌∷◌, true, false, inl, inr, ◌*◌, ◌||◌, ◌==◌, ap, ◌≤◌, ◌&&◌, if◌then◌else◌, arith,
  Bool-cases, map, ℕ, not, length, all, List, Bool, ◌≡◌, refl,
}
use nullprt.Aegc1.Semantic.Counts.{monomorphize_prep_lem, instances, total}
use nullprt.Aegc1.Semantic.{monomorphize_prep, is_lowered}
use nullprt.Aegc1.Ir.{
  fn_ok, apply_protection_passes, protect_fn, lower_items, lower_item, ir_validate, ir_lower,
  ProtectOptions, IrFunction, IrModule,
}

-- The test of `a1_ir_validate`, read on the item that a function comes from.
abbrev pub item_lowers : AstItem → Bool
item_lowers it =
    not (it.is_async && it.has_cfg) && not (it.has_contract && length it.name.bytes == 0)

fn_ok-lower_item : (limit : ℕ) (it : AstItem) → fn_ok (lower_item limit it) ≡ item_lowers it
unfolding lower_item
fn_ok-lower_item limit it = ground arith

all-lower_items :
    (limit : ℕ) (items : List AstItem)
    → all fn_ok (lower_items limit items) ≡ all (λ it. not (is_lowered it) || item_lowers it) items
unfolding lower_items
all-lower_items limit [] = refl
all-lower_items limit (it ∷ items) = elim (Bool-cases (is_lowered it)) [
  | inl e ↦ rw (e, fn_ok-lower_item limit it, all-lower_items limit items)
  | inr e ↦ rw (e, all-lower_items limit items)
]

length-lower_items :
    (limit : ℕ) (items : List AstItem)
    → length (lower_items limit items) ≡ total (λ it. if is_lowered it then 1 else 0) items
unfolding lower_items
length-lower_items limit [] = refl
length-lower_items limit (it ∷ items) = elim (Bool-cases (is_lowered it)) [
  | inl e ↦ rw e (omega (arith, length-lower_items limit items))
  | inr e ↦ rw e (omega (arith, length-lower_items limit items))
]

instances_bounds :
    (items : List AstItem)
    → (total (λ it. if is_lowered it then 1 else 0) items ≤ total instances items)
      × (total instances items ≤ 2 * total (λ it. if is_lowered it then 1 else 0) items)
instances_bounds [] = omega arith
instances_bounds (it ∷ items) =
    let one = step (is_lowered it) it.is_generic in
    let ih = instances_bounds items in omega (arith, one, ih)
  where
    step :
        (l g : Bool)
        → ((if l then 1 else 0) ≤ (if l then (if g then 2 else 1) else 0))
          × ((if l then (if g then 2 else 1) else 0) ≤ 2 * (if l then 1 else 0))
    step l g = ground arith

-- Lowering keeps the items that are counted for instances: there are no more functions than
-- instances, and at most twice as many instances as functions.
pub ir_lower-instances :
    (m : AstModule)
    → (length (ir_lower m).fns ≤ (monomorphize_prep m).instantiated_items)
      × ((monomorphize_prep m).instantiated_items ≤ 2 * length (ir_lower m).fns)
unfolding ir_lower
ir_lower-instances m = omega (
  arith,
  length-lower_items m.nested_pattern_depth_limit m.items,
  instances_bounds m.items,
  (monomorphize_prep_lem m).0,
)

fn_ok-protect_fn : (opt : ProtectOptions) (f : IrFunction) → fn_ok (protect_fn opt f) ≡ fn_ok f
unfolding protect_fn
fn_ok-protect_fn opt f = elim (Bool-cases f.cfg_enabled) [ inl e ↦ rw e | inr e ↦ rw e ]

pub all-protect_fn :
    (opt : ProtectOptions) (fns : List IrFunction)
    → (all fn_ok (map (protect_fn opt) fns) ≡ all fn_ok fns)
      × (length (map (protect_fn opt) fns) ≡ length fns)
all-protect_fn opt [] = (refl, refl)
all-protect_fn opt (f ∷ fns) =
    let ih = all-protect_fn opt fns in (rw (fn_ok-protect_fn opt f, ih.0), ap suc ih.1)

-- The protection passes change no verdict of the validation.
pub ir_validate-apply_protection_passes :
    (opt : ProtectOptions) (ir : IrModule)
    → ir_validate (apply_protection_passes opt ir) ≡ ir_validate ir
unfolding ir_validate apply_protection_passes
ir_validate-apply_protection_passes opt ir = go opt.enable
  where
    go :
        (on : Bool)
        → ir_validate (if not on then ir else record ir { fns = map (protect_fn opt) ir.fns })
          ≡ ir_validate ir
    go true = rw (ir_validate, (all-protect_fn opt ir.fns).0, (all-protect_fn opt ir.fns).1)
    go false = refl

-- A lowered module is valid exactly if it has a function, its limit is in range, and no compiled
-- item is both `async` and under an attribute, or has a contract and no name.
pub ir_validate-ir_lower :
    (m : AstModule)
    → ir_validate (ir_lower m) ≡ (
        not (total (λ it. if is_lowered it then 1 else 0) m.items == 0)
        && (limit_ok m.nested_pattern_depth_limit
            && all (λ it. not (is_lowered it) || item_lowers it) m.items))
unfolding ir_validate ir_lower
ir_validate-ir_lower m = rw (
  length-lower_items m.nested_pattern_depth_limit m.items,
  all-lower_items m.nested_pattern_depth_limit m.items,
)

pub length-ir_lower :
    (m : AstModule) → length (ir_lower m).fns ≡ total (λ it. if is_lowered it then 1 else 0) m.items
unfolding ir_lower
length-ir_lower m = length-lower_items m.nested_pattern_depth_limit m.items
