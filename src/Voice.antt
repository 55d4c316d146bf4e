-- ===== src/Voice.antt =====
-- When the farmer speaks and when the turn is over: VoiceGate of
-- apps/voice-worker/src/voice_worker/runtime/vad.py and the silence detector of turn/base.py.
mod Gate
pub mod Events
pub mod Onset
pub mod Feeding
mod Turn
pub mod Silence
mod Examples
