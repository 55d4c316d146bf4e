-- ===== src/Dialer.antt =====
-- The outbound dialer (apps/worker/src/worker/dialer.py) and the campaign run that drives it
-- (apps/worker/src/worker/campaign.py).
mod Defs
mod Campaign
pub mod Stops
pub mod Lawful
pub mod Attempts
pub mod Overlap
pub mod Tasks
mod Examples
unfoldable pub use Defs.*
unfoldable pub use Campaign.*
