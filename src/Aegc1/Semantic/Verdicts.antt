-- ===== src/Aegc1/Semantic/Verdicts.antt =====
-- When the semantic checks of `aegc1` accept a module.
use nullprt.Base.{
  zero, suc, true, false, inl, inr, ◌⊎◌, ◌↔◌, any, ◌&&◌, ◌<◌, ◌≤◌, ◌+◌, arith, ◌==◌, ℕ, Bool, ◌≡◌,
}
use nullprt.Aegc1.Ast.{limit_ok, AstModule}
use nullprt.Aegc1.Semantic.{
  rule_count, is_fn, rule_fails, report_if, check_rules, TypecheckResult, typecheck,
}
use mathlib.Core.Path.{subst}
use nullprt.Aegc1.Features.{has}

-- The result says `ok` exactly if it counts no error.
abbrev Counts : TypecheckResult → Type 0
Counts r = r.ok ≡ (r.errors == 0)

report_if-Counts : (test : Bool) (r : TypecheckResult) → Counts r → Counts (report_if test r)
report_if-Counts test r h = ground arith

check_rules_lem :
    (m : AstModule) (n k : ℕ) (r : TypecheckResult) → Counts r → Counts (check_rules m n k r)
unfolding check_rules
check_rules_lem m zero k r h = h
check_rules_lem m (suc n) k r h =
    check_rules_lem m n (k + 1) _ (report_if-Counts (has m.feature_bits k && rule_fails m k) r h)

check_rules_ok :
    (m : AstModule) (n k : ℕ) (r : TypecheckResult)
    → (check_rules m n k r).ok ≡ true
    → (r.ok ≡ true)
      × ((j : ℕ) → k ≤ j → j < k + n → (has m.feature_bits j && rule_fails m j) ≡ false)
unfolding check_rules
check_rules_ok m zero k r h = (h, λ j p q. absurd (omega arith))
check_rules_ok m (suc n) k r h =
    let ih = check_rules_ok m n (k + 1) _ h in
    let now : (has m.feature_bits k && rule_fails m k) ≡ false = ground (arith, ih.0) in
    (
      ground (arith, ih.0),
      λ j p q. elim (split j p) [
        | inl e ↦ subst (λ i. (has m.feature_bits i && rule_fails m i) ≡ false) e now
        | inr l ↦ ih.1 j l (omega arith)
      ],
    )
  where
    split : (j : ℕ) → k ≤ j → (k ≡ j) ⊎ (k + 1 ≤ j)
    split j p = omega arith

check_rules_all :
    (m : AstModule) (n k : ℕ) (r : TypecheckResult)
    → r.ok ≡ true
    → ((j : ℕ) → k ≤ j → j < k + n → (has m.feature_bits j && rule_fails m j) ≡ false)
    → (check_rules m n k r).ok ≡ true
unfolding check_rules
check_rules_all m zero k r h all = h
check_rules_all m (suc n) k r h all =
    check_rules_all m n (k + 1) _ (rw (all k (omega arith) (omega arith)) h)
      (λ j p q. all j (omega arith) (omega arith))

-- What the type check asks of a module.
pub record TypeChecks (m : AstModule) : Type 0 where
  pub some_fn : any is_fn m.items ≡ true
  pub limit : limit_ok m.nested_pattern_depth_limit ≡ true
  pub rules : (k : ℕ) → k < rule_count → has m.feature_bits k ≡ true → rule_fails m k ≡ false

-- The type check accepts a module exactly if it holds a function, its depth limit is in range and
-- each feature of its mask passes the rule of that feature; and it accepts exactly if it counts
-- no error.
pub typecheck-ok_iff :
    (m : AstModule)
    → (((typecheck m).ok ≡ true) ↔ TypeChecks m) × ((typecheck m).ok ≡ ((typecheck m).errors == 0))
unfolding typecheck
typecheck-ok_iff m = (
  (
    λ h.
        let (first, later) = check_rules_ok m rule_count 0 _ h in
        record {
          some_fn = ground (arith, first);
          limit = ground (arith, first);
          rules = λ k p e. ground (arith, later k (omega arith) (omega arith));
        },
    λ t.
        check_rules_all m rule_count 0 _ (ground (arith, t.some_fn, t.limit))
          (λ j p q. ground (arith, t.rules j (omega arith))),
  ),
  check_rules_lem m rule_count 0 _ (ground arith),
)
