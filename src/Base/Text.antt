-- ===== src/Base/Text.antt =====
-- Texts as lists of bytes: what the sources use of `strcmp`, `memcmp`, `strstr` and `ctype.h`.
use Prim.Native.Char.{code}
use Prim.Native.String.{String}
use Prim.Native.Nat.{ℕ}
use mathlib.Core.Bool.{Bool, true, false, ◌&&◌, ◌||◌}
use mathlib.Core.List.{List, [], ◌∷◌, ◌++◌}
use mathlib.Core.Logic.{◌↔◌}
use mathlib.Core.Path.{◌≡◌, refl, ap}
use native.Mathlib.Omega.{arith}
use nullprt.Base.Tests.{◌==◌, leb}

abbrev pub Bytes : Type 0
Bytes = List ℕ

-- The bytes of a literal; every literal of the sources that is modelled here is ASCII.
abbrev pub codes : String → Bytes
codes String.[] = []
codes (String.◌∷◌ c s) = code c ∷ codes s

-- `strcmp(a, b) == 0`, and `memcmp` of two pieces of one length.
unfoldable pub bytes_eq : Bytes → Bytes → Bool
bytes_eq [] [] = true
bytes_eq (x ∷ xs) (y ∷ ys) = x == y && bytes_eq xs ys
bytes_eq [] (y ∷ ys) = false
bytes_eq (x ∷ xs) [] = false

-- `memcmp(s, lit, strlen(lit)) == 0` where `s` holds at least as many bytes.
unfoldable pub starts_with : Bytes → Bytes → Bool
starts_with [] s = true
starts_with (x ∷ lit) [] = false
starts_with (x ∷ lit) (y ∷ s) = x == y && starts_with lit s

-- The search at each offset in turn.
unfoldable pub occurs : Bytes → Bytes → Bool
unfolding starts_with
occurs lit [] = starts_with lit []
occurs lit (y ∷ s) = starts_with lit (y ∷ s) || occurs lit s

-- `ctype.h` in the "C" locale.
unfoldable pub is_digit : ℕ → Bool
is_digit c = leb b'0' c && leb c b'9'

unfoldable pub is_alpha : ℕ → Bool
is_alpha c = (leb b'a' c && leb c b'z') || (leb b'A' c && leb c b'Z')

unfoldable pub is_alnum : ℕ → Bool
unfolding is_alpha is_digit
is_alnum c = is_alpha c || is_digit c

pub bytes_eq_iff : (a b : Bytes) → (bytes_eq a b ≡ true) ↔ (a ≡ b)
unfolding bytes_eq
bytes_eq_iff (x ∷ a) (y ∷ b) = ground (arith, bytes_eq_iff a b)
bytes_eq_iff [] [] = ground arith
bytes_eq_iff [] (y ∷ b) = ground arith
bytes_eq_iff (x ∷ a) [] = ground arith

pub starts_with-append : (lit post : Bytes) → starts_with lit (lit ++ post) ≡ true
unfolding starts_with
starts_with-append [] post = refl
starts_with-append (x ∷ lit) post = ground (arith, starts_with-append lit post)

pub starts_with_split :
    (lit s : Bytes) → starts_with lit s ≡ true → (post : Bytes) × (s ≡ lit ++ post)
unfolding starts_with
starts_with_split [] s h = (s, refl)
starts_with_split (x ∷ lit) [] h = cc
starts_with_split (x ∷ lit) (y ∷ s) h =
    let (post, e) = starts_with_split lit s (ground arith) in (post, ground arith)

-- A literal that stands between two pieces is found.
pub occurs-append : (pre lit post : Bytes) → occurs lit (pre ++ (lit ++ post)) ≡ true
unfolding occurs
occurs-append [] [] [] = refl
occurs-append [] [] (y ∷ post) = refl
occurs-append [] (x ∷ lit) post = ground (arith, starts_with-append (x ∷ lit) post)
occurs-append (c ∷ pre) lit post = ground (arith, occurs-append pre lit post)

-- What is found stands between two pieces.
pub occurs_split :
    (lit s : Bytes)
    → occurs lit s ≡ true
    → (pre : Bytes) × (post : Bytes) × (s ≡ pre ++ (lit ++ post))
occurs_split lit [] h =
    let (post, e) = starts_with_split lit [] (unfold occurs in h) in ([], post, e)
occurs_split lit (y ∷ s) h = go (occurs_split lit s) (starts_with lit (y ∷ s)) refl
  where
    go :
        (occurs lit s ≡ true → (pre : Bytes) × (post : Bytes) × (s ≡ pre ++ (lit ++ post)))
        → (b : Bool) → starts_with lit (y ∷ s) ≡ b
        → (pre : Bytes) × (post : Bytes) × (y ∷ s ≡ pre ++ (lit ++ post))
    go later true e = let (post, p) = starts_with_split lit (y ∷ s) e in ([], post, p)
    go later false e =
        let (pre, post, p) = later (unfold occurs in ground arith) in (y ∷ pre, post, ap (◌∷◌ y) p)
