-- ===== src/Tests/Extension.antt =====
-- The table of extensions on a few names.
use nullprt.Aegc1.Extension.{extension_lookup, extension_normalize, lookup_in}
use nullprt.Base.{bytes_eq, refl, ◌≡◌, codes}

config_short : extension_normalize (codes ".nullprtconfig") ≡ codes ".nprtcfg"
unfolding extension_normalize extension_lookup lookup_in bytes_eq
config_short = refl

config_stays : extension_normalize (codes ".nprtconfig") ≡ codes ".nprtconfig"
unfolding extension_normalize extension_lookup lookup_in bytes_eq
config_stays = refl
