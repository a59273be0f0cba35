-- ===== src/Conflict.antt =====
-- application/execution_conflict_analyzer.py: which members of one Wave may run side by side.
mod Paths
mod Regions
mod Coverage
pub mod Pairs
pub mod Scopes
pub mod Analyses
mod Combinations
pub mod Entries
pub mod Complete
pub mod Together
pub mod Returns
mod Samples
mod Runs
unfoldable pub use Paths.*
unfoldable pub use Regions.*
