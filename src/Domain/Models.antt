-- ===== src/Domain/Models.antt =====
-- domain/models.py. Each dataclass is a record with the same fields. A `datetime` is its local
-- time in microseconds, with the distance from UTC if it carries a time zone.
mod Json
mod Stories
mod Evidences
mod Dag
mod Waves
mod Missions
unfoldable pub use Json.*
unfoldable pub use Stories.*
unfoldable pub use Evidences.*
unfoldable pub use Dag.*
unfoldable pub use Waves.*
unfoldable pub use Missions.*
