-- ===== src/Auth.antt =====
-- src/a2a_hub/auth.py: bearer tokens, per-session identities and the ASGI guards.
pub mod Identity
pub mod Session
pub mod Tokens
pub mod Refusal
pub mod Bearer
pub mod Body
pub mod Headers
pub mod Gate
pub mod Lookup
pub mod Address
pub mod Trimmed
