-- ===== src/Outcomes.antt =====
-- What single operations bring about.
pub mod Tokens
pub mod Removals
pub mod Skips
pub mod Persisted
pub mod Stored
pub mod Logins
