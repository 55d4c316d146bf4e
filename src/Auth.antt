-- ===== src/Auth.antt =====
-- Staff sessions (apps/api/src/api/routers/auth.py and apps/api/src/api/security).
mod Store
mod Tokens
mod Signin
mod Requests
mod Guarded
mod Spent
mod Kept
pub mod Once
pub mod Rollback
pub mod Guesses
mod Examples
