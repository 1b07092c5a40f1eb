-- ===== src/Aegc1.antt =====
-- The self-hosted compiler `aegc1` (src/self/aegc1), one child for each of its stages.
pub mod Token
pub mod Kinds
pub mod Cursor
pub mod Lexer
pub mod Feature
pub mod Features
pub mod Ast
pub mod Parser
pub mod Module
pub mod Semantic
pub mod Ir
pub mod Driver
pub mod Config
pub mod Extension
pub mod Fixes
pub mod BuildGraph
