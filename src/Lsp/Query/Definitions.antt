-- ===== src/Lsp/Query/Definitions.antt =====
-- The place of a definition (`nls_find_definition` in src/lsp/nprt-lsp/index.c).
use nullprt.Base.{
  All-map, bytes_eq_iff, arith, [], ◌∷◌, true, false, none, some, inl, inr, refl, ◌&&◌, bytes_eq,
  ◌⊎◌, ◌≢◌, ◌≡◌, Bool, Option, Bytes, ℕ, List, All, test_cases,
}
use mathlib.Core.Path.{sym, subst}
use nullprt.Lsp.Query.{find_definition, find_first, place}
use nullprt.Lsp.Index.{Index, Symbol}
use nullprt.Lsp.Index.Docs.{IsCurrent}
use nullprt.Lsp.Index.Declared.{IsFrom, index_docs-IsFrom}
use mathlib.Core.Option

-- What the search for the first symbol finds.
find_first_cases :
    (P : Option Symbol → Type 0) (p : Symbol → Bool) (xs : List Symbol)
    → ((x : Symbol) → ((Q : Symbol → Type 0) → All Q xs → Q x) → p x ≡ true → P (some x))
    → (All (λ x. p x ≡ false) xs → P none)
    → P (find_first p xs)
unfolding find_first
find_first_cases P p [] found absent = absent tt
find_first_cases P p (x ∷ xs) found absent =
    test_cases P (p x) (some x) (find_first p xs) (λ e. found x (λ Q h. h.0) e)
      (λ e. find_first_cases P p xs (λ y q. found y (λ Q h. q Q h.1)) (λ h. absent (e, h)))

-- A symbol that `nls_find_definition` may answer with: of the name asked for, declared in a document,
-- and in the document preferred unless no symbol of this name is.
abbrev pub IsDefinition : Index → Bytes → Bytes → Symbol → Type 0
IsDefinition g symbol prefer_uri x =
    (x.name ≡ symbol)
    × IsFrom (g.docs) x
    × ((x.uri ≡ prefer_uri) ⊎ All (λ y. ¬ ((y.name ≡ symbol) × (y.uri ≡ prefer_uri))) (g.symbols))

-- The two searches, on a current index.
find_definition_cases :
    (P : Option (ℕ × ℕ × Bytes) → Type 0) (g : Index) (symbol prefer_uri : Bytes) (room : ℕ)
    → IsCurrent g
    → ((x : Symbol)
        → ((Q : Symbol → Type 0) → All Q (g.symbols) → Q x)
        → IsDefinition g symbol prefer_uri x
        → P (some (place room x)))
    → (All (λ y. y.name ≢ symbol) (g.symbols) → P none)
    → P (find_definition g symbol prefer_uri room)
unfolding find_definition
find_definition_cases P g symbol prefer_uri room c found absent =
    find_first_cases (λ o. P (elim o [ some x ↦ some (place room x) | none ↦ in_any ])) preferred
      (g.symbols)
      (λ x q e. found x q (
        (bytes_eq_iff (x.name) symbol).0 (ground (arith, e)),
        q (IsFrom (g.docs)) from_docs,
        inl ((bytes_eq_iff (x.uri) prefer_uri).0 (ground (arith, e))),
      ))
      (λ missing.
        find_first_cases (λ o. P (Option.map (place room) o)) named (g.symbols)
          (λ x q e. found x q (
            (bytes_eq_iff (x.name) symbol).0 e,
            q (IsFrom (g.docs)) from_docs,
            inr (All-map not_preferred (g.symbols) missing),
          ))
          (λ h. absent (
            All-map (λ y e same. ground (arith, e, (bytes_eq_iff (y.name) symbol).1 same))
              (g.symbols) h)))
  where
    named : Symbol → Bool
    named x = bytes_eq (x.name) symbol

    preferred : Symbol → Bool
    preferred x = bytes_eq (x.name) symbol && bytes_eq (x.uri) prefer_uri

    in_any : Option (ℕ × ℕ × Bytes)
    in_any = Option.map (place room) (find_first named (g.symbols))

    from_docs : All (IsFrom (g.docs)) (g.symbols)
    from_docs = subst (λ r. All (IsFrom (g.docs)) r.0) (sym (c.read)) (index_docs-IsFrom (g.docs))

    not_preferred :
        (y : Symbol) → preferred y ≡ false → ¬ ((y.name ≡ symbol) × (y.uri ≡ prefer_uri))
    not_preferred y e (n, u) =
        ground (arith, e, (bytes_eq_iff (y.name) symbol).1 n, (bytes_eq_iff (y.uri) prefer_uri).1 u)

-- On a current index `nls_find_definition` answers with the line, the column and the document of a
-- symbol with the name: there the name stands in the text, behind the keyword of a line. It is one of
-- the document preferred, unless no symbol of this name is. There is no answer only if no symbol has
-- the name.
pub find_definition_lem :
    (g : Index) (symbol prefer_uri : Bytes) (out_uri_cap : ℕ)
    → IsCurrent g
    → ((x : Symbol) × IsDefinition g symbol prefer_uri x
        × (find_definition g symbol prefer_uri out_uri_cap ≡ some (place out_uri_cap x)))
      ⊎ (All (λ y. y.name ≢ symbol) (g.symbols)
          × (find_definition g symbol prefer_uri out_uri_cap ≡ none))
find_definition_lem g symbol prefer_uri room c =
    find_definition_cases
      (λ r.
        ((x : Symbol) × IsDefinition g symbol prefer_uri x × (r ≡ some (place room x)))
        ⊎ (All (λ y. y.name ≢ symbol) (g.symbols) × (r ≡ none)))
      g symbol prefer_uri room c (λ x q d. inl (x, d, refl)) (λ h. inr (h, refl))
