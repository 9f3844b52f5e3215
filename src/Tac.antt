-- ===== src/Tac.antt =====
-- The three-address code of internal/tac: its data, its checks, its builder and its evaluator.
pub mod Types
pub mod Operands
pub mod Opcodes
pub mod Verify
pub mod Builder
pub mod Validate
pub mod Int32
pub mod Eval
pub mod Code
pub mod Cfg
