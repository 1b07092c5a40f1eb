-- ===== src/Aegc1/Config.antt =====
-- The configuration table (src/self/aegc1/runtime/config_parser.c). Strings are lists of bytes, a null
-- pointer is `none`, and memory is found, so that `cfg_set` does not fail.
pub mod Table
use nullprt.Base.{
  ◌&&◌, ◌||◌, is_digit, ◌==◌, not, codes, if◌then◌else◌, bytes_eq, Option, List, Bytes, Bool, zero,
  suc, [], ◌∷◌, true, false, none, some, inl, inr, refl, ℕ,
}

pub data CfgType : Type 0 where
  string : CfgType
  int : CfgType
  float : CfgType
  bool : CfgType

pub record CfgEntry : Type 0 where
  pub key : Bytes
  pub value : Bytes
  pub type : CfgType

-- The loop over the bytes of a value.
unfoldable pub infer_number : Bool → Bytes → CfgType
infer_number seen_dot [] = if seen_dot then float else int
infer_number seen_dot (c ∷ v) =
    let dotted = infer_number true v in
    let others = infer_number seen_dot v in
    if c == 46 then dotted else if not (is_digit c) && not (c == 45) then string else others

unfoldable pub infer_type : Bytes → CfgType
infer_type v =
    if bytes_eq v (codes "true") || bytes_eq v (codes "false")
    then bool
    else elim v [ [] ↦ string | c ∷ w ↦ infer_number false (c ∷ w) ]

unfoldable pub cfg_set : List CfgEntry → Bytes → Bytes → List CfgEntry
cfg_set [] key value = record { key = key; value = value; type = infer_type value } ∷ []
cfg_set (e ∷ es) key value = elim (bytes_eq e.key key) [
  | false ↦ e ∷ cfg_set es key value
  | true ↦ record { key = e.key; value = value; type = infer_type value } ∷ es
]

unfoldable pub cfg_merge : List CfgEntry → List CfgEntry → List CfgEntry
cfg_merge base [] = base
cfg_merge base (e ∷ overlay) = cfg_merge (cfg_set base e.key e.value) overlay

unfoldable pub cfg_get_string : List CfgEntry → Bytes → Option Bytes → Option Bytes
cfg_get_string [] key default = default
cfg_get_string (e ∷ es) key default = elim (bytes_eq e.key key) [
  | false ↦ cfg_get_string es key default
  | true ↦ some e.value
]

abbrev pub is_true : Option Bytes → Bool → Bool
is_true none default = default
is_true (some v) default = bytes_eq v (codes "true") || bytes_eq v (codes "1")

unfoldable pub cfg_get_bool : List CfgEntry → Bytes → Bool → Bool
cfg_get_bool cfg key default = is_true (cfg_get_string cfg key none) default

abbrev pub is_present : Option Bytes → Bool
is_present none = false
is_present (some v) = true

unfoldable pub cfg_require : List CfgEntry → Bytes → Bool
cfg_require cfg key = is_present (cfg_get_string cfg key none)

unfoldable pub cfg_validate : List CfgEntry → Bool
cfg_validate cfg =
    if not (cfg_require cfg (codes "package.name"))
    then false
    else if not (cfg_require cfg (codes "package.version"))
    then false
    else true
