-- ===== src/Numbers.antt =====
-- Numbers in speech (apps/voice-worker/src/voice_worker/text/numbers.py).
mod Tables
mod Defs
pub mod Reading
pub mod RoundTrip
pub mod Tokens
mod Examples
