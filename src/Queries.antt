-- ===== src/Queries.antt =====
-- The package sqlc: one module for each table, with a function for each query. A query is a
-- statement of `Store.Monad`; the constraints of schema.sql that an INSERT or UPDATE can meet are
-- part of it.
pub mod Sources
pub mod Articles
pub mod OutboundLinks
pub mod Feeds
pub mod ArticlesFeeds
pub mod RefreshTokens
pub mod Users
pub mod UserPreferences
pub mod ControlPanel
pub mod Order
pub mod Listing
pub mod FeedArticles
pub mod Suggestions
