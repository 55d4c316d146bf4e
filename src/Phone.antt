-- ===== src/Phone.antt =====
-- Phone numbers: packages/domain/src/uaagro_domain/phone.py, and the direction of a call by
-- apps/voice-worker/src/voice_worker/runtime/direction.py.
mod Defs
mod Direction
mod Digits
pub mod Canonical
pub mod Parties
mod Examples
