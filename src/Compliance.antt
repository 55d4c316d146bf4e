-- ===== src/Compliance.antt =====
-- The outbound compliance gate (packages/domain/src/uaagro_domain/compliance.py).
-- A moment is a number of milliseconds since the epoch. Its time of day in India comes from the
-- zone database, which is no part of the repository: `ist` is a parameter.
mod Defs
mod Gate
pub mod Contacts
pub mod Report
pub mod Retry
mod Examples
unfoldable pub use Defs.*
unfoldable pub use Gate.*
