-- ===== src/Lsp/Query/References.antt =====
-- The references to a symbol (`nls_find_references` in src/lsp/nprt-lsp/index.c).
use nullprt.Base.{
  starts_with, zero, suc, [], ◌∷◌, true, false, inl, inr, refl, Bool-cases, ◌≤◌, not, ◌⊎◌, ◌∙◌,
  ◌||◌, drop-drop, ◌==◌, sym, ap, arith, ◌↔◌, ◌<◌, ◌-◌, ◌&&◌, ◌≡◌, if◌then◌else◌, drop, ◌+◌, ◌++◌,
  Bytes, Bool, ℕ, take, length, map, List, All,
}
use nullprt.Lsp.Query.{
  docs_references, find_references, is_reference, references_loop, line_is_comment, reference_at,
}
use nullprt.Lsp.Text.{byte_at, is_ident}
use nullprt.Lsp.Query.Comments.{line_is_comment_iff, InComment}
use mathlib.Core.Path.{ap, subst}
use nullprt.Lsp.Text.Around.{IsWordAt, byte_at-drop}
use nullprt.Lsp.Index.{Index, text_or_empty, Reference, IndexDoc}

-- `count` numbers from `i` on.
abbrev pub positions : ℕ → ℕ → List ℕ
positions i zero = []
positions i (suc count) = i ∷ positions (i + 1) count

abbrev pub keep : (ℕ → Bool) → List ℕ → List ℕ
keep p [] = []
keep p (i ∷ is) = let rest = keep p is in if p i then i ∷ rest else rest

-- The test of one place in a text.
abbrev pub stands : Bytes → Bool → Bytes → ℕ → Bool
stands symbol include_comments t idx =
    starts_with symbol (drop idx t) && is_reference symbol include_comments t idx

-- The references in all the documents, of which there is no bound.
abbrev pub all_references : Bytes → Bool → List IndexDoc → List Reference
all_references symbol include_comments [] = []
all_references symbol include_comments (d ∷ docs) =
    let t = text_or_empty (d.text) in
    map (reference_at (d.uri) t) (keep (stands symbol include_comments t) (positions 0 (length t)))
    ++ all_references symbol include_comments docs

loop_lem :
    (symbol : Bytes) (include_comments : Bool) (uri t : Bytes) (idx : ℕ) (s : Bytes) (room : ℕ)
    → drop idx t ≡ s
    → references_loop symbol include_comments uri t idx s room
      ≡ take room (
          map
            (reference_at uri t)
            (keep (stands symbol include_comments t) (positions idx (length s))))
unfolding references_loop
loop_lem symbol inc uri t idx [] zero e = refl
loop_lem symbol inc uri t idx [] (suc room) e = refl
loop_lem symbol inc uri t idx (c ∷ s) zero e = refl
loop_lem symbol inc uri t idx (c ∷ s) (suc room) e =
    let at : ℕ → Reference = reference_at uri t in
    let later = keep (stands symbol inc t) (positions (idx + 1) (length s)) in
    let next : drop (idx + 1) t ≡ s = sym (drop-drop idx 1 t) ∙ ap (drop 1) e in
    by_test (starts_with symbol (c ∷ s) && is_reference symbol inc t idx) at later
      (loop_lem symbol inc uri t (idx + 1) s room next)
      (loop_lem symbol inc uri t (idx + 1) s (suc room) next)
    ∙ ap
        (λ l. take (suc room) (
          map at
            (if starts_with symbol l && is_reference symbol inc t idx then idx ∷ later else later)))
        (sym e)
  where
    by_test :
        (b : Bool) (at : ℕ → Reference) (later : List ℕ) {xs ys : List Reference}
        → xs ≡ take room (map at later)
        → ys ≡ take (suc room) (map at later)
        → elim b [ true ↦ at idx ∷ xs | false ↦ ys ]
          ≡ take (suc room) (map at (if b then idx ∷ later else later))
    by_test true at later h k = ap (λ l. at idx ∷ l) h
    by_test false at later h k = k

take-append :
    {A : Type 0} (n : ℕ) (xs ys : List A)
    → take n (xs ++ ys) ≡ take n xs ++ take (n - length (take n xs)) ys
take-append zero xs ys = refl
take-append (suc n) [] ys = ap (λ k. take k ys) {x = suc n} (omega arith)
take-append (suc n) (x ∷ xs) ys =
    ap (λ l. x ∷ l) (take-append n xs ys) ∙ ap (λ k. x ∷ (take n xs ++ take k ys)) (omega arith)

docs_lem :
    (symbol : Bytes) (include_comments : Bool) (docs : List IndexDoc) (room : ℕ)
    → docs_references symbol include_comments docs room
      ≡ take room (all_references symbol include_comments docs)
unfolding docs_references
docs_lem symbol inc [] zero = refl
docs_lem symbol inc [] (suc room) = refl
docs_lem symbol inc (d ∷ docs) room =
    let t = text_or_empty (d.text) in
    let found =
      map (reference_at (d.uri) t) (keep (stands symbol inc t) (positions 0 (length t))) in
    let first : references_loop symbol inc (d.uri) t 0 t room ≡ take room found =
      loop_lem symbol inc (d.uri) t 0 t room refl in
    ap (λ l. l ++ docs_references symbol inc docs (room - length l)) first
    ∙ ap (λ l. take room found ++ l) (docs_lem symbol inc docs (room - length (take room found)))
    ∙ sym (take-append room found (all_references symbol inc docs))

starts_with-take : (lit s : Bytes) → (starts_with lit s ≡ true) ↔ (take (length lit) s ≡ lit)
unfolding starts_with
starts_with-take [] s = ground arith
starts_with-take (x ∷ lit) [] = ground arith
starts_with-take (x ∷ lit) (y ∷ s) = ground (arith, starts_with-take lit s)

byte_at-start :
    (P : ℕ → Type 0) (lit s : Bytes)
    → All P lit
    → take (length lit) s ≡ lit
    → (k : ℕ) → k < length lit
    → P (byte_at s k)
unfolding byte_at
byte_at-start P [] s h e k l = absurd (omega arith)
byte_at-start P (x ∷ lit) [] h e k l = absurd (ground arith)
byte_at-start P (x ∷ lit) (y ∷ s) h e zero l = subst P (ground arith) h.0
byte_at-start P (x ∷ lit) (y ∷ s) h e (suc k) l =
    byte_at-start P lit s h.1 (ground arith) k (omega arith)

-- `nls_find_references` has, for a symbol that is not empty, the first `cap` of all the references of the
-- documents in turn: of the places, from the first byte of a text to the last, where the symbol stands.
pub find_references_lem :
    (g : Index) (symbol : Bytes) (include_comments : Bool) (cap : ℕ)
    → find_references g symbol include_comments cap
      ≡ take cap (all_references symbol include_comments (g.docs))
unfolding find_references
find_references_lem g symbol include_comments cap = docs_lem symbol include_comments (g.docs) cap

left_iff :
    (t : Bytes) (idx : ℕ)
    → ((idx == 0 || not (is_ident (byte_at t (idx - 1)))) ≡ true)
      ↔ ((idx ≡ 0) ⊎ (is_ident (byte_at t (idx - 1)) ≡ false))
left_iff t idx = ground arith

outside :
    (t : Bytes) (idx : ℕ) (inc : Bool)
    → ((inc || not (line_is_comment t idx)) ≡ true) ↔ ((inc ≡ true) ⊎ ¬ InComment t idx)
outside t idx true = (λ h. inl refl, λ h. refl)
outside t idx false = (
  λ h. inr (λ c. ground (arith, h, (line_is_comment_iff t idx).1 c)),
  λ h. elim h [
    | inl e ↦ absurd cc
    | inr n ↦ elim (Bool-cases (line_is_comment t idx)) [
      | inl e ↦ absurd (n ((line_is_comment_iff t idx).0 e))
      | inr e ↦ rw e refl
    ]
  ],
)

-- A place passes the tests of `nls_find_references` for a symbol of bytes of names if and only if the
-- symbol is a whole word there and, without the comments, the line of the place, which starts at the
-- start of the text or behind the last newline before the place, does not start with `//`.
pub stands_iff :
    (symbol : Bytes) (include_comments : Bool) (t : Bytes) (idx : ℕ)
    → All (λ c. is_ident c ≡ true) symbol
    → (stands symbol include_comments t idx ≡ true) ↔ (
        IsWordAt t idx (length symbol)
        × (take (length symbol) (drop idx t) ≡ symbol)
        × ((include_comments ≡ true) ⊎ ¬ InComment t idx))
unfolding is_reference
stands_iff symbol inc t idx all_ident = (there, back)
  where
    ident_inside :
        take (length symbol) (drop idx t) ≡ symbol
        → (i : ℕ) → idx ≤ i
        → i < idx + length symbol
        → is_ident (byte_at t i) ≡ true
    ident_inside here i l k =
        ap (λ j. is_ident (byte_at t j)) {y = idx + (i - idx)} (omega arith)
        ∙ ap is_ident (sym (byte_at-drop idx t (i - idx)))
        ∙ byte_at-start (λ c. is_ident c ≡ true) symbol (drop idx t) all_ident here (i - idx)
            (omega arith)

    there :
        stands symbol inc t idx ≡ true
        → IsWordAt t idx (length symbol)
          × (take (length symbol) (drop idx t) ≡ symbol)
          × ((inc ≡ true) ⊎ ¬ InComment t idx)
    there h =
        let here : take (length symbol) (drop idx t) ≡ symbol =
          (starts_with-take symbol (drop idx t)).0 (ground arith) in
        (
          record {
            left = (left_iff t idx).0 (ground arith);
            inside = ident_inside here;
            right = ground arith;
          },
          here,
          (outside t idx inc).0 (ground arith),
        )

    back :
        (IsWordAt t idx (length symbol)
          × (take (length symbol) (drop idx t) ≡ symbol)
          × ((inc ≡ true) ⊎ ¬ InComment t idx))
        → stands symbol inc t idx ≡ true
    back (w, e, c) = ground (
      arith,
      w.left,
      w.right,
      (starts_with-take symbol (drop idx t)).1 e,
      (outside t idx inc).1 c,
    )
