-- ===== src/Tests.antt =====
-- Tests on concrete inputs, and the theorems at concrete inputs.
mod Evaluator
mod Lowering
mod Validation
mod Lexing
mod Graphs
mod Builders
