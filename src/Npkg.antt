-- ===== src/Npkg.antt =====
-- The package manager `nprt-pkg` (src/pkg/nprt-pkg), one child for each of its parts.
pub mod Cas
pub mod Version
pub mod Resolver
pub mod Sha256
