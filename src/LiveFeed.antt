-- ===== src/LiveFeed.antt =====
-- The feed of live events (packages/domain/src/uaagro_domain/livefeed.py).
mod Defs
pub mod Delivery
mod Examples
