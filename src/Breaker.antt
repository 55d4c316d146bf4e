-- ===== src/Breaker.antt =====
-- The circuit breaker in front of each vendor
-- (apps/voice-worker/src/voice_worker/adapters/resilience.py).
-- Times are whole milliseconds of the monotonic clock, handed in where the code reads the clock.
mod Defs
pub mod Trips
pub mod Probe
pub mod Streaming
mod Examples
unfoldable pub use Defs.*
