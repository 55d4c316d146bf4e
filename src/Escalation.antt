-- ===== src/Escalation.antt =====
-- When and to whom a call is handed over (apps/voice-worker/src/voice_worker/flow/escalation.py and
-- tools/escalation.py).
mod Reasons
mod Engine
mod Transfer
pub mod Covered
pub mod Windows
pub mod Reached
pub mod Handed
mod Examples
