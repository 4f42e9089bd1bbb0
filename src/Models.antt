-- ===== src/Models.antt =====
-- src/db/models.rs: the rows of the tables and the enumerations stored in them.
-- Row ids are natural numbers (AUTOINCREMENT keys are positive), dates are natural numbers on one
-- time scale, and byte counts are natural numbers.
mod Storage
mod Access
mod Sharing
mod Cluster
unfoldable pub use Storage.*
unfoldable pub use Access.*
pub use Sharing.*
pub use Cluster.*
