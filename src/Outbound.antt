-- ===== src/Outbound.antt =====
-- The outbound call (apps/voice-worker/src/voice_worker/outbound): what a turn meant, the script
-- driven turn by turn, and the flow of conversation.py.
mod Reply
mod Responder
mod Deeds
pub mod Honest
mod Verdict
pub mod Outcome
pub mod Turns
pub mod Questions
mod Flow
pub mod Handlers
mod Script
pub mod Stored
mod Examples
