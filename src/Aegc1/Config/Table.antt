-- ===== src/Aegc1/Config/Table.antt =====
-- What `cfg_set` and `nprt_cfg_merge` (src/self/aegc1/runtime/config_parser.c) do to a table.
use nullprt.Aegc1.Config.{cfg_get_string, cfg_merge, cfg_set, infer_type, CfgEntry}
use nullprt.Base.{
  [], ◌∷◌, true, false, some, inl, inr, refl, ◌∙◌, sym, Bool-cases, arith, bytes_eq_iff, Bool,
  if◌then◌else◌, ap, ◌≡◌, Option, bytes_eq, List, Bytes,
}
use mathlib.Core.Path.{subst}

-- No entry has the key.
abbrev pub Absent : Bytes → List CfgEntry → Type 0
Absent key [] = Unit
Absent key (e ∷ es) = (bytes_eq e.key key ≡ false) × Absent key es

-- No key stands twice.
abbrev pub AreDistinct : List CfgEntry → Type 0
AreDistinct [] = Unit
AreDistinct (e ∷ es) = Absent e.key es × AreDistinct es

bytes_eq_subst : (a b c : Bytes) → bytes_eq a b ≡ true → bytes_eq a c ≡ bytes_eq b c
bytes_eq_subst a b c h = ap (λ x. bytes_eq x c) ((bytes_eq_iff a b).0 h)

bytes_eq_apart : (a b c : Bytes) → bytes_eq a b ≡ false → bytes_eq a c ≡ true → bytes_eq b c ≡ false
bytes_eq_apart a b c h k = elim (Bool-cases (bytes_eq b c)) [
  | inl l ↦ absurd (
      true_false
        (sym ((bytes_eq_iff a b).1 ((bytes_eq_iff a c).0 k ∙ sym ((bytes_eq_iff b c).0 l))) ∙ h))
  | inr l ↦ l
]
  where
    true_false : ¬ (true ≡ false)
    true_false q = ground arith

-- Once a value is set, its key has it and every other key has what it had before.
pub cfg_get_string-set :
    (es : List CfgEntry) (key value j : Bytes) (default : Option Bytes)
    → cfg_get_string (cfg_set es key value) j default
      ≡ (if bytes_eq key j then some value else cfg_get_string es j default)
unfolding cfg_get_string cfg_set
cfg_get_string-set [] key value j default = by_test (bytes_eq key j)
  where
    by_test :
        (t : Bool)
        → (elim t [ false ↦ default | true ↦ some value ]) ≡ (if t then some value else default)
    by_test true = refl
    by_test false = refl
cfg_get_string-set (e ∷ es) key value j default =
    by_keys (bytes_eq e.key key) (bytes_eq e.key j) refl refl
      (cfg_get_string-set es key value j default)
  where
    true_false : ¬ (true ≡ false)
    true_false q = ground arith

    by_keys :
        (a b : Bool)
        → bytes_eq e.key key ≡ a
        → bytes_eq e.key j ≡ b
        → cfg_get_string (cfg_set es key value) j default
          ≡ (if bytes_eq key j then some value else cfg_get_string es j default)
        → cfg_get_string
            (elim a [
              | false ↦ e ∷ cfg_set es key value
              | true ↦ record { key = e.key; value = value; type = infer_type value } ∷ es
            ])
            j
            default
          ≡ (if bytes_eq key j
              then some value
              else elim b [ false ↦ cfg_get_string es j default | true ↦ some e.value ])
    by_keys true true p q r =
        let same = sym (bytes_eq_subst e.key key j p) ∙ q in
        ap (λ b. elim b [ false ↦ cfg_get_string es j default | true ↦ some value ]) q
        ∙ sym (ap (λ c. if c then some value else some e.value) same)
    by_keys true false p q r =
        let same = sym (bytes_eq_subst e.key key j p) ∙ q in
        ap (λ b. elim b [ false ↦ cfg_get_string es j default | true ↦ some value ]) q
        ∙ sym (ap (λ c. if c then some value else cfg_get_string es j default) same)
    by_keys false true p q r =
        ap
          (λ b. elim b [
            | false ↦ cfg_get_string (cfg_set es key value) j default
            | true ↦ some e.value
          ])
          q
        ∙ sym (ap (λ c. if c then some value else some e.value) (bytes_eq_apart e.key key j p q))
    by_keys false false p q r =
        ap
          (λ b. elim b [
            | false ↦ cfg_get_string (cfg_set es key value) j default
            | true ↦ some e.value
          ])
          q
        ∙ r

cfg_get_string-Absent :
    (es : List CfgEntry) (j : Bytes) (default : Option Bytes)
    → Absent j es
    → cfg_get_string es j default ≡ default
unfolding cfg_get_string
cfg_get_string-Absent [] j default h = refl
cfg_get_string-Absent (e ∷ es) j default h =
    ap (λ b. elim b [ false ↦ cfg_get_string es j default | true ↦ some e.value ]) h.0
    ∙ cfg_get_string-Absent es j default h.1

Absent-subst : (a b : Bytes) (es : List CfgEntry) → bytes_eq a b ≡ true → Absent a es → Absent b es
Absent-subst a b es h k = subst (λ x. Absent x es) ((bytes_eq_iff a b).0 h) k

-- In a table that is merged from two, each key has the value of the overlay, if no key stands twice
-- there, and that of the base where the overlay has none.
pub cfg_get_string-merge :
    (base overlay : List CfgEntry) (j : Bytes) (default : Option Bytes)
    → AreDistinct overlay
    → cfg_get_string (cfg_merge base overlay) j default
      ≡ cfg_get_string overlay j (cfg_get_string base j default)
unfolding cfg_get_string cfg_merge
cfg_get_string-merge base [] j default h = refl
cfg_get_string-merge base (e ∷ overlay) j default h =
    cfg_get_string-merge (cfg_set base e.key e.value) overlay j default h.1
    ∙ ap (cfg_get_string overlay j) (cfg_get_string-set base e.key e.value j default)
    ∙ by_key (bytes_eq e.key j) refl
  where
    by_key :
        (t : Bool)
        → bytes_eq e.key j ≡ t
        → cfg_get_string overlay j (if t then some e.value else cfg_get_string base j default)
          ≡ elim t [
            | false ↦ cfg_get_string overlay j (cfg_get_string base j default)
            | true ↦ some e.value
          ]
    by_key true k =
        cfg_get_string-Absent overlay j (some e.value) (Absent-subst e.key j overlay k h.0)
    by_key false k = refl

Absent-set :
    (es : List CfgEntry) (key value j : Bytes)
    → bytes_eq key j ≡ false
    → Absent j es
    → Absent j (cfg_set es key value)
unfolding cfg_set
Absent-set [] key value j n h = (n, tt)
Absent-set (e ∷ es) key value j n h = by_key (bytes_eq e.key key) (Absent-set es key value j n h.1)
  where
    by_key :
        (t : Bool)
        → Absent j (cfg_set es key value)
        → Absent j (elim t [
          | false ↦ e ∷ cfg_set es key value
          | true ↦ record { key = e.key; value = value; type = infer_type value } ∷ es
        ])
    by_key true k = h
    by_key false k = (h.0, k)

bytes_eq_comm : (a b : Bytes) → bytes_eq a b ≡ false → bytes_eq b a ≡ false
bytes_eq_comm a b h = bytes_eq_apart a b a h ((bytes_eq_iff a a).1 refl)

cfg_set-AreDistinct :
    (es : List CfgEntry) (key value : Bytes) → AreDistinct es → AreDistinct (cfg_set es key value)
unfolding cfg_set
cfg_set-AreDistinct [] key value h = (tt, tt)
cfg_set-AreDistinct (e ∷ es) key value h =
    by_key (bytes_eq e.key key) refl (cfg_set-AreDistinct es key value h.1)
  where
    by_key :
        (t : Bool)
        → bytes_eq e.key key ≡ t
        → AreDistinct (cfg_set es key value)
        → AreDistinct (elim t [
          | false ↦ e ∷ cfg_set es key value
          | true ↦ record { key = e.key; value = value; type = infer_type value } ∷ es
        ])
    by_key true n k = h
    by_key false n k = (Absent-set es key value e.key (bytes_eq_comm e.key key n) h.0, k)

-- A table in which no key stands twice stays such a one when values are set or a table is merged into
-- it.
pub cfg_merge-AreDistinct :
    (base overlay : List CfgEntry) (key value : Bytes)
    → AreDistinct base
    → AreDistinct (cfg_set base key value) × AreDistinct (cfg_merge base overlay)
unfolding cfg_merge
cfg_merge-AreDistinct base [] key value h = (cfg_set-AreDistinct base key value h, h)
cfg_merge-AreDistinct base (e ∷ overlay) key value h = (
  cfg_set-AreDistinct base key value h,
  (cfg_merge-AreDistinct (cfg_set base e.key e.value) overlay key value
      (cfg_set-AreDistinct base e.key e.value h)).1,
)
