-- ===== src/Endpoints.antt =====
-- The package services/endpoints/v1: the handlers that write, each with its guards, its transaction
-- and the status that it answers. A request is what the handler reads of it after Bind; a body that
-- does not parse is `none`. Logging is left out.
pub mod Reply
pub mod Validation
pub mod Articles
pub mod Sources
pub mod Feeds
pub mod Sessions
pub mod Settings
