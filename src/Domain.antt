-- ===== src/Domain.antt =====
-- The data-only domain models of agentic_engineering_os/domain: the enumerations (enums.py) and
-- the dataclasses (models.py).
mod Enums
mod Models
pub mod Samples
unfoldable pub use Enums.*
unfoldable pub use Models.*
