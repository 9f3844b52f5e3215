-- ===== src/Tac/Cfg.antt =====
-- internal/tac/cfg/cfg.go: the control flow graph of a function. An identifier of a block is its
-- index, a number that is not negative, so the tests for negative ones are left out.
pub mod Leaders
pub mod Graph
pub mod Mirror
pub mod Partition
pub mod Cutting
pub mod Aims
pub mod Panics
pub mod Pieces
pub mod Flows
pub mod Bounds
pub mod Names
unfoldable pub use Leaders.*
unfoldable pub use Graph.*
