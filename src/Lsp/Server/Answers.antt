-- ===== src/Lsp/Server/Answers.antt =====
-- The answer to a request for a definition (`handle_definition` in src/lsp/nprt-lsp/main.c).
use nullprt.Lsp.Query.{find_first, find_macro_expansion, macro_name, find_definition, place}
use nullprt.Lsp.Server.{definition, symbol_under, Server, find_text}
use nullprt.Lsp.Text.{byte_at, extract_symbol_at, offset_to_line_col, is_ident}
use nullprt.Base.{
  zero, suc, [], ◌∷◌, true, false, none, some, inl, inr, refl, ◌==◌, ◌&&◌, All-map, bytes_eq_iff,
  bytes_eq, is_alnum, ◌⊎◌, ◌≢◌, ◌∙◌, ◌+◌, ◌≤◌, arith, ap, ◌≡◌, ◌<◌, Bool, Bytes, ℕ, if_cases,
  length, List, take, drop, All,
}
use mathlib.Core.Option.{Option}
use nullprt.Base.Int.{pos}
use nullprt.Lsp.Index.{Index, Symbol}
use nullprt.Lsp.Server.Agrees.{IsServed}
use nullprt.Lsp.Query.Definitions.{IsDefinition, find_definition_lem}
use nullprt.Lsp.Text.Around.{IsWordAt, byte_at-drop}
use nullprt.Lsp.Text.Words.{extract_symbol_at_exact}
use nullprt.Lsp.Index.Declared.{length-take_le}
use mathlib.Core.Option

-- A name has no `!`, so all of it is the name of a macro.
macro_name-ident :
    (m : ℕ) (s : Bytes) → All (λ c. is_ident c ≡ true) s → length s ≤ m → macro_name m s ≡ s
unfolding macro_name
macro_name-ident zero [] h l = refl
macro_name-ident zero (c ∷ s) h l = absurd (omega arith)
macro_name-ident (suc m) [] h l = refl
macro_name-ident (suc m) (c ∷ s) (e, h) l =
    if_cases (λ t. t ≡ c ∷ s) (c == b'!') [] (c ∷ macro_name m s)
      (λ f. absurd (unfold is_ident is_alnum in ground (arith, e, f)))
      (λ f. ap (λ t. c ∷ t) (macro_name-ident m s h (omega arith)))

take-All :
    (P : ℕ → Type 0) (n : ℕ) (s : Bytes) → ((k : ℕ) → k < n → P (byte_at s k)) → All P (take n s)
unfolding byte_at
take-All P zero s h = tt
take-All P (suc n) [] h = tt
take-All P (suc n) (c ∷ s) h = (h 0 (omega arith), take-All P n s (λ k l. h (suc k) (omega arith)))

find_first-none :
    (p : Symbol → Bool) (xs : List Symbol) → All (λ x. p x ≡ false) xs → find_first p xs ≡ none
unfolding find_first
find_first-none p [] h = refl
find_first-none p (x ∷ xs) (e, h) =
    ap (λ b. elim b [ true ↦ some x | false ↦ find_first p xs ]) e ∙ find_first-none p xs h

-- Where no symbol has the name, none is a macro of the name.
no_macro :
    (g : Index) (sym : Bytes) (room : ℕ)
    → All (λ c. is_ident c ≡ true) sym
    → length sym ≤ 127
    → All (λ x. x.name ≢ sym) (g.symbols)
    → find_macro_expansion g sym room ≡ none
unfolding find_macro_expansion
no_macro g sym room ident short h = ap (Option.map (place room)) (
    find_first-none (λ x. x.is_macro && bytes_eq (x.name) (macro_name 127 sym)) (g.symbols)
      (All-map other_name (g.symbols) h))
  where
    other_name :
        (x : Symbol) → x.name ≢ sym → (x.is_macro && bytes_eq (x.name) (macro_name 127 sym)) ≡ false
    other_name x other =
        ap (λ t. x.is_macro && bytes_eq (x.name) t) (macro_name-ident 127 sym ident short)
        ∙ ground (arith, differs)
      where
        differs : bytes_eq (x.name) sym ≡ true → ⊥
        differs e = other ((bytes_eq_iff (x.name) sym).0 e)

-- The word under the cursor, as the handlers find it.
pub symbol_under_exact :
    (s : Server) (uri text : Bytes) (off a n : ℕ)
    → find_text uri (s.docs) ≡ some text
    → off ≤ length text
    → IsWordAt text a n
    → 0 < n
    → n ≤ 127
    → a ≤ off
    → off ≤ a + n
    → let r = offset_to_line_col text off in
      symbol_under s (some uri) (pos r.0) (pos r.1) ≡ some (uri, take n (drop a text))
unfolding symbol_under
symbol_under_exact s uri text off a n found in_text w grown short l h =
    let r = offset_to_line_col text off in
    ap
      (λ o. elim o [
        | none ↦ none
        | some t ↦ Option.map (λ sym. (uri, sym)) (extract_symbol_at t (pos r.0) (pos r.1) 128)
      ])
      found
    ∙ ap (Option.map (λ sym. (uri, sym)))
        (extract_symbol_at_exact text off a n 128 in_text w grown l h (omega arith))

-- With the cursor at a byte of a name of at most 127 bytes, or right behind it, in a document of a server
-- whose index is in step, a request for the definition is answered with a symbol of this name: its line
-- and its column are a place where the name stands behind the keyword of a line, in the same document if
-- one of its symbols has the name. There is no answer only where no symbol has the name.
pub definition_lem :
    (s : Server) (uri text : Bytes) (off a n : ℕ)
    → IsServed s
    → find_text uri (s.docs) ≡ some text
    → off ≤ length text
    → IsWordAt text a n
    → 0 < n
    → n ≤ 127
    → a ≤ off
    → off ≤ a + n
    → let r = offset_to_line_col text off in
      let sym = take n (drop a text) in
      let answer = definition s (some uri) (pos r.0) (pos r.1) in
      ((x : Symbol) × IsDefinition (s.index) sym uri x × (answer ≡ some (place 512 x, length sym)))
      ⊎ (All (λ x. x.name ≢ sym) (s.index.symbols) × (answer ≡ none))
unfolding definition
definition_lem s uri text off a n served found in_text w grown short l h =
    let r = offset_to_line_col text off in
    let sym_ = take n (drop a text) in
    let under = ap asked (symbol_under_exact s uri text off a n found in_text w grown short l h) in
    elim (find_definition_lem (s.index) sym_ uri 512 (served.current)) [
      | inl (x, d, e) ↦ inl (x, d, under ∙ ap (answered sym_) e)
      | inr (missing, e) ↦ inr (
        missing,
        under
            ∙ ap (answered sym_) e
            ∙ ap (Option.map (λ p. (p, length sym_))) (
                no_macro (s.index) sym_ 512 all_ident
                  (omega (arith, length-take_le n (drop a text))) missing),
      )
    ]
  where
    answered : Bytes → Option (ℕ × ℕ × Bytes) → Option ((ℕ × ℕ × Bytes) × ℕ)
    answered sym none = Option.map (λ p. (p, length sym)) (find_macro_expansion (s.index) sym 512)
    answered sym (some p) = some (p, length sym)

    asked : Option (Bytes × Bytes) → Option ((ℕ × ℕ × Bytes) × ℕ)
    asked none = none
    asked (some u) = answered u.1 (find_definition (s.index) u.1 u.0 512)

    all_ident : All (λ c. is_ident c ≡ true) (take n (drop a text))
    all_ident =
        take-All (λ c. is_ident c ≡ true) n (drop a text)
          (λ k m.
            ap is_ident (byte_at-drop a text k) ∙ w.inside (a + k) (omega arith) (omega arith))
