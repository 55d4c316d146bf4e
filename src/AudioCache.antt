-- ===== src/AudioCache.antt =====
-- The cache of synthesised audio (apps/voice-worker/src/voice_worker/runtime/audio_cache.py).
mod Defs
pub mod Abstract
mod Examples
