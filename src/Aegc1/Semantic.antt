-- ===== src/Aegc1/Semantic.antt =====
-- The semantic checks of `aegc1` (src/self/aegc1/semantic: typecheck.c, borrowcheck.c,
-- monomorphize.c). Diagnostics are counted; their texts go to `stderr` and are left out.
pub mod Verdicts
pub mod Counts
use nullprt.Base.{
  ℕ, zero, suc, ◌+◌, Bool, true, false, not, ◌&&◌, ◌||◌, ◌==◌, List, [], ◌∷◌, if◌then◌else◌, any,
}
use nullprt.Aegc1.Ast.{AstItem, AstModule, fn, struct, enum, macro, is_kind, limit_ok}
use nullprt.Aegc1.Features.{has}
use nullprt.Aegc1.Feature

pub record TypecheckResult : Type 0 where
  pub ok : Bool
  pub errors : ℕ

-- `tc_error`
abbrev pub tc_error : TypecheckResult → TypecheckResult
tc_error r = record { ok = false; errors = r.errors + 1 }

abbrev pub report_if : Bool → TypecheckResult → TypecheckResult
report_if test r = if test then tc_error r else r

abbrev pub is_fn : AstItem → Bool
is_fn it = is_kind it.kind fn

abbrev pub has_macro : AstModule → Bool
has_macro m = any (λ it. is_kind it.kind macro || it.has_macro_attrs) m.items

-- The chain of tests for one rule; a rule that stands in none of them always passes.
unfoldable pub rule_fails : AstModule → ℕ → Bool
rule_fails m k =
    let has_generic = any (λ it. it.is_generic) m.items in
    let has_where = any (λ it. it.has_where) m.items in
    (k == Feature.dependent_type && not (has_generic || has_where))
    || ((k == Feature.refinement_type && not has_where)
        || ((k == Feature.contract_type && not (any (λ it. it.has_contract) m.items))
            || ((k == Feature.invariant_type && not (any (λ it. it.has_invariant) m.items))
                || ((k == Feature.async_cancel && not (any (λ it. it.is_async) m.items))
                    || ((k == Feature.generator_resume && not (any (λ it. it.is_generator) m.items))
                        || ((k == Feature.coroutine_sched
                              && not (any (λ it. it.is_coroutine) m.items))
                            || ((k == Feature.decl_macro_recursion
                                  || (k == Feature.proc_macro_stable
                                      || k == Feature.hygiene_isolation))
                                && not (has_macro m))))))))

-- The loop over `kRules` from rule `k` on, with `n` rules left; rule `k` is that of bit `k`.
unfoldable pub check_rules : AstModule → ℕ → ℕ → TypecheckResult → TypecheckResult
check_rules m zero k r = r
check_rules m (suc n) k r =
    check_rules m n (k + 1) (report_if (has m.feature_bits k && rule_fails m k) r)

abbrev pub rule_count : ℕ
rule_count = 30

unfoldable pub typecheck : AstModule → TypecheckResult
unfolding check_rules
typecheck m = check_rules m rule_count 0 (
    report_if (not (limit_ok m.nested_pattern_depth_limit))
      (report_if (not (any is_fn m.items)) (record { ok = true; errors = 0 })))

pub record BorrowcheckResult : Type 0 where
  pub ok : Bool
  pub violations : ℕ

abbrev pub violation_if : Bool → BorrowcheckResult → BorrowcheckResult
violation_if test r = if test then record { ok = false; violations = r.violations + 1 } else r

-- The three rules, for a function.
abbrev pub linear_fault : ℕ → AstItem → Bool
linear_fault bits it = has bits Feature.linear_type && (not it.is_async && not it.has_where)

abbrev pub borrow_fault : ℕ → AstItem → Bool
borrow_fault bits it = has bits Feature.resource_borrow && not it.has_invariant

abbrev pub quantity_fault : ℕ → AstItem → Bool
quantity_fault bits it = has bits Feature.quantity_type && not it.is_generic

unfoldable pub borrow_item : ℕ → AstItem → BorrowcheckResult → BorrowcheckResult
borrow_item bits it r =
    if not (is_fn it)
    then r
    else violation_if (quantity_fault bits it)
        (violation_if (borrow_fault bits it) (violation_if (linear_fault bits it) r))

unfoldable pub borrow_items : ℕ → List AstItem → BorrowcheckResult → BorrowcheckResult
borrow_items bits [] r = r
borrow_items bits (it ∷ items) r = borrow_items bits items (borrow_item bits it r)

unfoldable pub borrowcheck : AstModule → BorrowcheckResult
unfolding borrow_items
borrowcheck m = borrow_items m.feature_bits m.items (record { ok = true; violations = 0 })

pub record MonomorphizeResult : Type 0 where
  pub ok : Bool
  pub instantiated_items : ℕ

-- The items that are compiled: functions, structures and enumerations.
abbrev pub is_lowered : AstItem → Bool
is_lowered it = is_kind it.kind fn || (is_kind it.kind struct || is_kind it.kind enum)

abbrev pub mono_fault : ℕ → AstItem → Bool
mono_fault bits it =
    (has bits Feature.higher_kinded && not it.is_generic)
    || ((has bits Feature.existential && not it.has_where)
        || (has bits Feature.row_polymorphism && not it.is_generic))

unfoldable pub mono_item : ℕ → AstItem → MonomorphizeResult → MonomorphizeResult
mono_item bits it r =
    if is_lowered it
    then record {
      ok = if mono_fault bits it then false else r.ok;
      instantiated_items = r.instantiated_items + (if it.is_generic then 2 else 1);
    }
    else r

unfoldable pub mono_items : ℕ → List AstItem → MonomorphizeResult → MonomorphizeResult
mono_items bits [] r = r
mono_items bits (it ∷ items) r = mono_items bits items (mono_item bits it r)

unfoldable pub monomorphize_prep : AstModule → MonomorphizeResult
unfolding mono_items
monomorphize_prep m =
    mono_items m.feature_bits m.items (record { ok = true; instantiated_items = 0 })
