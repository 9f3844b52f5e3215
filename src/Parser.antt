-- ===== src/Parser.antt =====
-- internal/parser: the syntax tree.
pub mod Ast
