-- ===== src/Auth.antt =====
-- Users, service accounts, sessions and policies of internal/auth.
mod Defs
pub mod Matching
pub mod Engine
pub mod Tokens
pub mod Requests
pub mod Signatures
pub use Defs.*
