-- ===== src/CallFlow.antt =====
-- The inbound call's state machine and its counters
-- (apps/voice-worker/src/voice_worker/flow/state.py).
mod States
mod Defs
pub mod Graph
pub mod Moves
pub mod Counters
mod Examples
unfoldable pub use States.*
unfoldable pub use Defs.*
