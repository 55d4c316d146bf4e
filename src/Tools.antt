-- ===== src/Tools.antt =====
-- The tools that the model may call (apps/voice-worker/src/voice_worker/tools/base.py).
mod Schema
mod Registry
mod Accepted
pub mod Valid
pub mod Execution
pub mod Allowed
mod Examples
