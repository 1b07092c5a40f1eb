-- ===== src/Tests.antt =====
-- Runs at concrete inputs, and the theorems applied at inputs that meet their hypotheses.
mod Aegc0
mod Aegc1
mod BuildGraph
mod Config
mod Extension
mod Fixes
mod Fmt
mod Lsp
mod LspServer
mod Npkg
