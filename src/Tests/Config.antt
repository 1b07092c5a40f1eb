-- ===== src/Tests/Config.antt =====
-- The configuration table on small inputs.
use nullprt.Aegc1.Config.{
  cfg_get_bool, cfg_get_string, cfg_merge, cfg_require, cfg_set, cfg_validate, infer_number,
  infer_type, int, string, CfgEntry,
}
use nullprt.Base.{
  bytes_eq, is_digit, [], ◌∷◌, true, false, none, refl, ◌≡◌, map, codes, List, Bytes,
}
use nullprt.Aegc1.Config.Table.{cfg_get_string-merge}

-- What the runs compute with.
run : Unit {0}
unfolding infer_number infer_type cfg_set cfg_merge cfg_get_string cfg_get_bool cfg_require
    cfg_validate bytes_eq is_digit
run = tt

abbrev name : Bytes
name = codes "package.name"

abbrev edition : Bytes
edition = codes "package.version"

abbrev base : List CfgEntry
unfolding run
base = cfg_set (cfg_set [] name (codes "demo")) edition (codes "0.1")

abbrev overlay : List CfgEntry
unfolding run
overlay = cfg_set [] edition (codes "-2")

merged_types : map (λ e. e.type) (cfg_merge base overlay) ≡ string ∷ int ∷ []
unfolding run base overlay
merged_types = refl

base_valid : (cfg_validate base ≡ true) × (cfg_validate overlay ≡ false)
unfolding run base overlay
base_valid = (refl, refl)

cfg_get_string-merge_example :
    cfg_get_string (cfg_merge base overlay) edition none
    ≡ cfg_get_string overlay edition (cfg_get_string base edition none)
unfolding run overlay
cfg_get_string-merge_example = cfg_get_string-merge base overlay edition none (tt, tt)
