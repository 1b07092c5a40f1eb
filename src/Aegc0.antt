-- ===== src/Aegc0.antt =====
-- The seed compiler `aegc0` (src/seed/aegc0), one child for each of its stages.
pub mod Token
pub mod Lexer
pub mod Ast
pub mod Parser
pub mod Expressions
pub mod Statements
pub mod Sema
pub mod Emit
pub mod Driver
pub mod Arena
