-- ===== src/Aegc1/Feature.antt =====
-- `A1AstFeatureBits` (src/self/aegc1/frontend/ast.h): the number of each feature's bit.
use nullprt.Base.{ℕ}

abbrev pub dependent_type : ℕ
dependent_type = 0

abbrev pub refinement_type : ℕ
refinement_type = 1

abbrev pub linear_type : ℕ
linear_type = 2

abbrev pub effect_type : ℕ
effect_type = 3

abbrev pub algebraic_effect : ℕ
algebraic_effect = 4

abbrev pub higher_kinded : ℕ
higher_kinded = 5

abbrev pub existential : ℕ
existential = 6

abbrev pub session_type : ℕ
session_type = 7

abbrev pub proof_type : ℕ
proof_type = 8

abbrev pub contract_type : ℕ
contract_type = 9

abbrev pub invariant_type : ℕ
invariant_type = 10

abbrev pub resource_borrow : ℕ
resource_borrow = 11

abbrev pub quantity_type : ℕ
quantity_type = 12

abbrev pub graded_type : ℕ
graded_type = 13

abbrev pub row_polymorphism : ℕ
row_polymorphism = 14

abbrev pub recursive_type : ℕ
recursive_type = 15

abbrev pub assoc_type_dep : ℕ
assoc_type_dep = 16

abbrev pub size_type : ℕ
size_type = 17

abbrev pub value_dependent : ℕ
value_dependent = 18

abbrev pub pattern_exhaustive : ℕ
pattern_exhaustive = 19

abbrev pub pattern_range : ℕ
pattern_range = 20

abbrev pub pattern_nested : ℕ
pattern_nested = 21

abbrev pub async_cancel : ℕ
async_cancel = 22

abbrev pub generator_resume : ℕ
generator_resume = 23

abbrev pub coroutine_sched : ℕ
coroutine_sched = 24

abbrev pub decl_macro_recursion : ℕ
decl_macro_recursion = 25

abbrev pub proc_macro_stable : ℕ
proc_macro_stable = 26

abbrev pub hygiene_isolation : ℕ
hygiene_isolation = 27

abbrev pub comptime_reflection : ℕ
comptime_reflection = 28

abbrev pub ast_validation : ℕ
ast_validation = 29
