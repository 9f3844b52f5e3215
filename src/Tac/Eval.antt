-- ===== src/Tac/Eval.antt =====
-- internal/tac/evaluator.go.
pub mod Ranges
pub mod OpRanges
pub mod Terminates
mod State
mod Ops
mod Run
unfoldable pub use State.*
unfoldable pub use Ops.*
unfoldable pub use Run.*
