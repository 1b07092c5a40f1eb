-- ===== src/Aegc1/Extension/Normal.antt =====
-- Normal forms of extensions (src/self/aegc1/runtime/extension_registry.c).
use nullprt.Aegc1.Extension.{
  extension_is_known, extension_lookup, extension_normalize, lookup_in, is_found, short_or,
  extensions, ExtensionInfo,
}
use nullprt.Base.{
  bytes_eq, [], ◌∷◌, true, false, none, some, refl, ◌∙◌, bytes_eq_iff, sym, ap, ◌||◌, if◌then◌else◌,
  arith, ◌&&◌, Option, List, ◌≡◌, Bool, all, Bytes,
}

-- The entry is what both its short form and the lookup of it give.
abbrev is_normal : ExtensionInfo → Bool
is_normal item =
    bytes_eq (extension_normalize item.short_ext) item.short_ext
    && extension_is_known item.short_ext

table_normal : all is_normal extensions ≡ true
unfolding extension_normalize extension_lookup lookup_in bytes_eq extension_is_known
table_normal = refl

all-lookup_in :
    (p : ExtensionInfo → Bool) (items : List ExtensionInfo) (ext : Bytes) (item : ExtensionInfo)
    → all p items ≡ true
    → lookup_in items ext ≡ some item
    → p item ≡ true
unfolding lookup_in
all-lookup_in p [] ext item h k = absurd (none_some k)
  where
    none_some : ¬ (◌≡◌ {A = Option ExtensionInfo} none (some item))
    none_some q = ground arith
all-lookup_in p (x ∷ items) ext item h k =
    by_test (p x) (bytes_eq ext x.short_ext || bytes_eq ext x.long_ext) refl h k
      (all-lookup_in p items ext item)
  where
    by_test :
        (b t : Bool)
        → p x ≡ b
        → (b && all p items) ≡ true
        → (if t then some x else lookup_in items ext) ≡ some item
        → (all p items ≡ true → lookup_in items ext ≡ some item → p item ≡ true)
        → p item ≡ true
    by_test true true e h k r = ap p (sym (ap (λ o. elim o [ none ↦ x | some y ↦ y ]) k)) ∙ e
    by_test true false e h k r = r h k
    by_test false t e h k r = absurd (ground arith)

lookup-is_normal :
    (ext : Bytes) (item : ExtensionInfo) → extension_lookup ext ≡ some item → is_normal item ≡ true
unfolding extension_lookup
lookup-is_normal [] item h = absurd (none_some h)
  where
    none_some : ¬ (◌≡◌ {A = Option ExtensionInfo} none (some item))
    none_some q = ground arith
lookup-is_normal (c ∷ ext) item h = all-lookup_in is_normal extensions (c ∷ ext) item table_normal h

-- The normal form of an extension is its own normal form, and is known exactly if the extension is.
pub extension_normalize_lem :
    (ext : Bytes)
    → (extension_normalize (extension_normalize ext) ≡ extension_normalize ext)
      × (extension_is_known (extension_normalize ext) ≡ extension_is_known ext)
unfolding extension_normalize extension_is_known
extension_normalize_lem ext = by_entry (extension_lookup ext) refl
  where
    parts : (a b : Bool) → (a && b) ≡ true → (a ≡ true) × (b ≡ true)
    parts a b h = ground arith

    by_entry :
        (o : Option ExtensionInfo)
        → extension_lookup ext ≡ o
        → (extension_normalize (short_or o ext) ≡ short_or o ext)
          × (extension_is_known (short_or o ext) ≡ is_found o)
    by_entry none e = (ap (λ o. short_or o ext) e, ap is_found e)
    by_entry (some item) e =
        let n =
          parts (bytes_eq (extension_normalize item.short_ext) item.short_ext)
            (extension_is_known item.short_ext) (lookup-is_normal ext item e) in
        ((bytes_eq_iff (extension_normalize item.short_ext) item.short_ext).0 n.0, n.1)
