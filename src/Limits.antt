-- ===== src/Limits.antt =====
-- The rate limits (apps/api/src/api/security/ratelimit.py).
mod Defs
mod Counts
pub mod Ceiling
pub mod Retry
pub mod Memory
mod Examples
unfoldable pub use Defs.*
pub use Counts.{AtLeast}
