-- ===== src/Aegc1/Semantic/Counts.antt =====
-- What the borrow check and the preparation of instances count (borrowcheck.c, monomorphize.c).
use nullprt.Base.{
  ap, [], ◌∷◌, true, false, ◌∙◌, all, ◌&&◌, ◌+◌, arith, ◌==◌, if◌then◌else◌, not, List, ℕ, Bool,
  ◌≡◌,
}
use nullprt.Aegc1.Semantic.{
  monomorphize_prep, quantity_fault, mono_item, mono_fault, borrow_fault, violation_if,
  linear_fault, is_lowered, is_fn, MonomorphizeResult, BorrowcheckResult, mono_items, borrowcheck,
  borrow_items, borrow_item,
}
use nullprt.Aegc1.Ast.{AstModule, AstItem}

abbrev one_if : Bool → ℕ
one_if b = if b then 1 else 0

-- The rules that an item breaks; only functions are held to them.
abbrev pub faults : ℕ → AstItem → ℕ
faults bits it =
    if is_fn it
    then one_if (linear_fault bits it)
      + (one_if (borrow_fault bits it) + one_if (quantity_fault bits it))
    else 0

abbrev pub total {ℓ} : {A : Type ℓ} → (A → ℕ) → List A → ℕ
total f [] = 0
total f (x ∷ xs) = f x + total f xs

borrow_item_lem :
    (bits : ℕ) (it : AstItem) (r : BorrowcheckResult)
    → r.ok ≡ (r.violations == 0)
    → ((borrow_item bits it r).violations ≡ r.violations + faults bits it)
      × ((borrow_item bits it r).ok ≡ ((borrow_item bits it r).violations == 0))
unfolding borrow_item
borrow_item_lem bits it r h =
    general (is_fn it) (linear_fault bits it) (borrow_fault bits it) (quantity_fault bits it)
  where
    general :
        (f a b c : Bool)
        → let q = if not f then r else violation_if c (violation_if b (violation_if a r)) in
          (q.violations ≡ r.violations + (if f then one_if a + (one_if b + one_if c) else 0))
          × (q.ok ≡ (q.violations == 0))
    general f a b c = ground arith

borrow_items_lem :
    (bits : ℕ) (items : List AstItem) (r : BorrowcheckResult)
    → r.ok ≡ (r.violations == 0)
    → ((borrow_items bits items r).violations ≡ r.violations + total (faults bits) items)
      × ((borrow_items bits items r).ok ≡ ((borrow_items bits items r).violations == 0))
unfolding borrow_items
borrow_items_lem bits [] r h = (omega arith, h)
borrow_items_lem bits (it ∷ items) r h =
    let now = borrow_item_lem bits it r h in
    let later = borrow_items_lem bits items (borrow_item bits it r) now.1 in
    (omega (arith, now.0, later.0), later.1)

-- The borrow check counts each broken rule of each function, and accepts exactly if it counts none.
pub borrowcheck-violations :
    (m : AstModule)
    → ((borrowcheck m).violations ≡ total (faults m.feature_bits) m.items)
      × ((borrowcheck m).ok ≡ ((borrowcheck m).violations == 0))
unfolding borrowcheck
borrowcheck-violations m =
    let l =
      borrow_items_lem m.feature_bits m.items (record { ok = true; violations = 0 })
        (ground arith) in
    (omega (arith, l.0), l.1)

-- A generic item stands for two instances, any other item that is compiled for one.
abbrev pub instances : AstItem → ℕ
instances it = if is_lowered it then (if it.is_generic then 2 else 1) else 0

abbrev pub mono_passes : ℕ → AstItem → Bool
mono_passes bits it = not (is_lowered it && mono_fault bits it)

mono_item_lem :
    (bits : ℕ) (it : AstItem) (r : MonomorphizeResult)
    → ((mono_item bits it r).instantiated_items ≡ r.instantiated_items + instances it)
      × ((mono_item bits it r).ok ≡ (r.ok && mono_passes bits it))
unfolding mono_item
mono_item_lem bits it r = step (is_lowered it) (mono_fault bits it) it.is_generic
  where
    step :
        (l f g : Bool)
        → let q : MonomorphizeResult =
            if l
            then record {
              ok = if f then false else r.ok;
              instantiated_items = r.instantiated_items + (if g then 2 else 1);
            }
            else r in
          (q.instantiated_items ≡ r.instantiated_items + (if l then (if g then 2 else 1) else 0))
          × (q.ok ≡ (r.ok && not (l && f)))
    step l f g = ground arith

and_assoc : (a b c : Bool) → ((a && b) && c) ≡ (a && (b && c))
and_assoc a b c = ground arith

mono_items_lem :
    (bits : ℕ) (items : List AstItem) (r : MonomorphizeResult)
    → ((mono_items bits items r).instantiated_items ≡ r.instantiated_items + total instances items)
      × ((mono_items bits items r).ok ≡ (r.ok && all (mono_passes bits) items))
unfolding mono_items
mono_items_lem bits [] r = (omega arith, ground arith)
mono_items_lem bits (it ∷ items) r =
    let later = mono_items_lem bits items (mono_item bits it r) in
    let now = mono_item_lem bits it r in
    (
      omega (arith, later.0, now.0),
      later.1
          ∙ ap (λ b. b && all (mono_passes bits) items) now.1
          ∙ and_assoc r.ok (mono_passes bits it) (all (mono_passes bits) items),
    )

-- The preparation counts one instance of each item that is compiled, or two of a generic one, and
-- accepts exactly if no such item breaks a rule.
pub monomorphize_prep_lem :
    (m : AstModule)
    → ((monomorphize_prep m).instantiated_items ≡ total instances m.items)
      × ((monomorphize_prep m).ok ≡ all (mono_passes m.feature_bits) m.items)
unfolding monomorphize_prep
monomorphize_prep_lem m =
    let l = mono_items_lem m.feature_bits m.items (record { ok = true; instantiated_items = 0 }) in
    (omega (arith, l.0), l.1)
