-- ===== src/DryRuns.antt =====
-- The handlers of services/endpoints/v1 that try out a step of the discovery, or ask the AI for a
-- translation, and store nothing.
pub mod Judging
pub mod Treating
pub mod Translating
pub mod Sweeping
pub mod Agreement
pub mod Fresh
pub mod Untouched
