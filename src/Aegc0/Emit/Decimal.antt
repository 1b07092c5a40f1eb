-- ===== src/Aegc0/Emit/Decimal.antt =====
-- The numbers in the C text of src/seed/aegc0/emit_c.c.
use nullprt.Base.{
  test_cases, zero, suc, [], ◌∷◌, refl, ltb→lt, ◌%◌, ◌+◌, ap, ◌∙◌, ◌/◌, ltb, arith, ◌≡◌, ◌^◌, ◌++◌,
  ◌<◌, Bytes, ℕ,
}
use nullprt.Aegc0.Emit.{decimal, digits}
use nullprt.Aegc0.Lexer.{digits_value}
use native.Mathlib.Nat.{pow-suc}

digits_value-append :
    (s : Bytes) (v : ℕ) (t : Bytes) → digits_value v (s ++ t) ≡ digits_value (digits_value v s) t
unfolding digits_value
digits_value-append [] v t = refl
digits_value-append (c ∷ s) v t = digits_value-append s _ t

digits_lem : (k n : ℕ) → n < 10 ^ k → n < 2 ^ 64 → digits_value 0 (digits k n) ≡ n
unfolding digits digits_value
digits_lem zero n h b = omega arith
digits_lem (suc k) n h b =
    test_cases (λ s. digits_value 0 s ≡ n) (ltb n 10) _ _ (λ e. omega (arith, ltb→lt n 10 e))
      (λ e.
        digits_value-append (digits k (n / 10)) 0 _
        ∙ ap (λ v. digits_value v ((48 + n % 10) ∷ []))
            (digits_lem k (n / 10) (omega (arith, pow-suc 10 k)) (omega arith))
        ∙ omega arith)

-- The text of an integer in the C file, read by the lexer's own rule for the digits of a literal,
-- is that integer again, for all values of 64 bits.
pub digits_value-decimal : (n : ℕ) → n < 2 ^ 64 → digits_value 0 (decimal n) ≡ n
unfolding decimal
digits_value-decimal n h = digits_lem 20 n (omega arith) h
