-- ===== src/Aegc1/Extension.antt =====
-- The table of file extensions (src/self/aegc1/runtime/extension_registry.c). A null pointer that the
-- lookup returns is `none`; the one it takes in place of a string is left out.
pub mod Normal
use nullprt.Base.{
  codes, zero, suc, [], ◌∷◌, true, false, none, some, inl, inr, refl, ◌||◌, bytes_eq, if◌then◌else◌,
  Bool, Option, List, Bytes, ℕ,
}
use Prim.Native.String.{String}

pub record ExtensionInfo : Type 0 where
  pub short_ext : Bytes
  pub long_ext : Bytes
  pub kind : Bytes

abbrev info : String → String → String → ExtensionInfo
info short long kind = record { short_ext = codes short; long_ext = codes long; kind = codes kind }

abbrev pub extensions : List ExtensionInfo
extensions =
    info ".nprt" ".nullprt" "source"
    ∷ info ".nprti" ".nullprtinterface" "source"
    ∷ info ".nprtm" ".nullprtmodule" "source"
    ∷ info ".nprtl" ".nullprtlibrary" "binary"
    ∷ info ".nprta" ".nullprtarchive" "binary"
    ∷ info ".nprtso" ".nullprtsharedobject" "binary"
    ∷ info ".nprtdll" ".nullprtdynamiclibrary" "binary"
    ∷ info ".nprtb" ".nullprtbytecode" "binary"
    ∷ info ".nprto" ".nullprtobject" "binary"
    ∷ info ".nprtd" ".nullprtdebug" "binary"
    ∷ info ".nprtmap" ".nullprtmap" "binary"
    ∷ info ".nprtlog" ".nullprtlog" "diagnostics"
    ∷ info ".nprtstats" ".nullprtstatistics" "diagnostics"
    ∷ info ".nprtprof" ".nullprtprofile" "diagnostics"
    ∷ info ".nprtcov" ".nullprtcoverage" "diagnostics"
    ∷ info ".nprttest" ".nullprttest" "qa"
    ∷ info ".nprtbench" ".nullprtbenchmark" "qa"
    ∷ info ".nprtdoc" ".nullprtdocument" "docs"
    ∷ info ".nprttut" ".nullprttutorial" "docs"
    ∷ info ".nprtex" ".nullprtexample" "docs"
    ∷ info ".nprtcfg" ".nullprtconfig" "config"
    ∷ info ".nprtconfig" ".nullprtconfig" "config"
    ∷ info ".nprtenv" ".nullprtenvironment" "config"
    ∷ info ".nprtsecret" ".nullprtsecret" "config"
    ∷ info ".nprtpkg" ".nullprtpackage" "package"
    ∷ info ".nprtlock" ".nullprtlock" "package"
    ∷ info ".nprtmanifest" ".nullprtmanifest" "package"
    ∷ info ".nprtkey" ".nullprtkey" "security"
    ∷ info ".nprtcert" ".nullprtcertificate" "security"
    ∷ info ".nprtlicense" ".nullprtlicense" "security"
    ∷ info ".nprtsig" ".nullprtsignature" "security"
    ∷ info ".nprtmeta" ".nullprtmetadata" "metadata"
    ∷ info ".nprtc" ".nullprtc" "interop"
    ∷ info ".nprtcpp" ".nullprtcpp" "interop"
    ∷ info ".nprtasm" ".nullprtassembly" "interop"
    ∷ info ".nprtll" ".nullprtllvm" "interop"
    ∷ info ".nprtir" ".nullprtintermediaterepresentation" "ir"
    ∷ info ".nprthir" ".nullprthir" "ir"
    ∷ info ".nprtmir" ".nullprtmir" "ir"
    ∷ info ".nprtlir" ".nullprtlir" "ir"
    ∷ []

-- The loop over the table.
unfoldable pub lookup_in : List ExtensionInfo → Bytes → Option ExtensionInfo
lookup_in [] ext = none
lookup_in (item ∷ items) ext =
    if bytes_eq ext item.short_ext || bytes_eq ext item.long_ext
    then some item
    else lookup_in items ext

unfoldable pub extension_lookup : Bytes → Option ExtensionInfo
extension_lookup [] = none
extension_lookup (c ∷ ext) = lookup_in extensions (c ∷ ext)

abbrev pub is_found : Option ExtensionInfo → Bool
is_found none = false
is_found (some item) = true

unfoldable pub extension_is_known : Bytes → Bool
extension_is_known ext = is_found (extension_lookup ext)

abbrev pub short_or : Option ExtensionInfo → Bytes → Bytes
short_or none ext = ext
short_or (some item) ext = item.short_ext

unfoldable pub extension_normalize : Bytes → Bytes
extension_normalize ext = short_or (extension_lookup ext) ext
