-- ===== src/Mulaw.antt =====
-- G.711 mu-law (apps/voice-worker/src/voice_worker/adapters/telephony/mulaw.py).
mod Defs
pub mod Codec
mod Examples
