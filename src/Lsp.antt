-- ===== src/Lsp.antt =====
-- The language server `nprt-lsp` (src/lsp/nprt-lsp): its documents and their index, its reader of
-- JSON, its messages, and what its handlers decide.
pub mod Json
pub mod Format
pub mod Handlers
pub mod Index
pub mod Messages
pub mod Query
pub mod Rename
pub mod Server
pub mod Text
