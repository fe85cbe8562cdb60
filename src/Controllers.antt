-- ===== src/Controllers.antt =====
-- The package services/controllers: one module for each controller, over the queries. A controller
-- never ends a transaction; `Store.Monad.with_transaction` does.
pub mod Errors
pub mod Keywords
pub mod Sources
pub mod Articles
pub mod OutboundLinks
pub mod Feeds
pub mod ArticlesFeeds
pub mod RefreshTokens
pub mod Users
pub mod UserPreferences
pub mod ControlPanel
pub mod Auth
pub mod Filters
pub mod Listing
pub mod Suggestions
