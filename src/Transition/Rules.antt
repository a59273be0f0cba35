-- ===== src/Transition/Rules.antt =====
-- What the decision of a transition depends on: `evaluate` against a declarative permission.
mod Naming
mod Dependencies
mod Permission
pub use Naming.*
pub use Dependencies.*
pub use Permission.*
