-- ===== src/Playback.antt =====
-- Outbound playback and barge-in (apps/voice-worker/src/voice_worker/runtime/playback.py and the
-- framing of runtime/audio.py).
mod Tracker
mod Defs
pub mod Framing
pub mod Streaming
pub mod Heard
mod Examples
