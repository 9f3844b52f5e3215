-- ===== src/Tac/Validate.antt =====
-- internal/tac/validate.go: `ValidateFunctionIR`. The messages also name the function, which is
-- left out of the errors here.
mod Labels
mod Starts
pub mod Blocks
pub mod Targets
pub mod Complete
pub mod Sorted
pub mod Collects
pub mod Accepts
pub mod Calm
unfoldable pub use Labels.*
unfoldable pub use Starts.*
unfoldable pub use Blocks.*
