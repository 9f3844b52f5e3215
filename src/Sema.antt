-- ===== src/Sema.antt =====
-- internal/sema: the lowering of a syntax tree to three-address code.
pub mod Types
pub mod Literals
pub mod Lowerer
pub mod Expressions
pub mod Statements
pub mod Lower
pub mod Unit
pub mod Shape
pub mod Emits
pub mod EmitsOps
pub mod Builds
pub mod OwnLabels
pub mod Signatures
