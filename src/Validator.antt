-- ===== src/Validator.antt =====
-- What the agent may speak (apps/voice-worker/src/voice_worker/flow/validator.py).
mod Figures
mod Results
mod Check
pub mod Spelling
mod Readings
mod Kept
mod Grounds
pub mod Grounded
pub mod Attempts
mod Examples
