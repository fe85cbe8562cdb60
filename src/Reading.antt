-- ===== src/Reading.antt =====
-- The package services/endpoints/v1: the handlers that only read. Each runs its queries in one
-- transaction and shapes the rows that it gets; a failure of the shaping is out of the model, since
-- a column of keywords always decodes.
pub mod Responses
pub mod Lists
pub mod Lookups
pub mod FeedArticles
pub mod Sorting
pub mod Client
pub mod Refinement
pub mod ArticleLists
pub mod FeedRows
pub mod FeedSafety
pub mod FeedPages
pub mod Unread
pub mod Agreement
pub mod ReadState
pub mod Untouched
pub mod Suggestions
pub mod Tallies
pub mod Coverage
pub mod Ranking
pub mod Picks
