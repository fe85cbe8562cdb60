-- ===== src/Discovery.antt =====
-- The packages services/discovery and services/cron: how the items of the sources become articles.
-- Logging is left out, and with it what is only logged.
pub mod Items
pub mod Lookup
pub mod UrlTreatment
pub mod Persist
pub mod Judge
pub mod Processor
pub mod Sweep
