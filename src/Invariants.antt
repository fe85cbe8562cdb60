-- ===== src/Invariants.antt =====
-- What holds of the database after every history.
pub mod ActiveSources
pub mod FeedLimit
pub mod Flags
pub mod Preferences
pub mod Sessions
pub mod UniqueUrls
