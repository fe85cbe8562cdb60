-- ===== src/Controllers/Listing.antt =====
-- List and ListAll of services/controllers/articles.go, sources.go and feeds.go, and
-- ListArticlesByFeedForUser of articles_feeds.go. A nil slice is the empty one. `lower` is the
-- function of the database of that name.
use news_feed_backend.Prelude.{ℕ, String, List}
use news_feed_backend.Store.{Article, Source, Feed, M, pure, ◌>>=◌}
use news_feed_backend.Pagination.{limit, offset}
use news_feed_backend.Queries.Listing
use news_feed_backend.Queries.FeedArticles
use news_feed_backend.Queries.FeedArticles.{FeedArticleRow, FeedArticleParams}
use news_feed_backend.Controllers.Filters.{
  ListArticlesFilter, ListSourcesFilter, ListFeedsFilter, ListFeedArticlesFilter, nullable_string,
  nullable_bool, nullable_time,
}

-- A page, and the number of all rows that match.
pub record Found (A : Type 0) : Type 0 where
  pub rows : List A
  pub total : ℕ

module _ (lower : String → String) where
  unfoldable pub list_articles : ListArticlesFilter → M (Found Article)
  list_articles filter = do
    articles ←
        Listing.list_articles lower (nullable_string filter.url) (limit filter.page)
          (offset filter.page)
    total ← Listing.count_articles lower (nullable_string filter.url)
    pure (record { rows = articles; total = total })

  unfoldable pub list_sources : ListSourcesFilter → M (Found Source)
  list_sources filter = do
    sources ←
        Listing.list_sources lower (nullable_string filter.url) (nullable_string filter.name)
          (limit filter.page) (offset filter.page)
    total ← Listing.count_sources lower (nullable_string filter.url) (nullable_string filter.name)
    pure (record { rows = sources; total = total })

  unfoldable pub list_feeds : String → ListFeedsFilter → M (Found Feed)
  list_feeds user_id filter = do
    feeds ←
        Listing.list_feeds_by_user lower user_id (nullable_string filter.name) (limit filter.page)
          (offset filter.page)
    total ← Listing.count_feeds_by_user lower user_id (nullable_string filter.name)
    pure (record { rows = feeds; total = total })

unfoldable pub list_all_articles : M (List Article)
list_all_articles = Listing.list_all_articles

unfoldable pub list_all_feeds : String → M (List Feed)
list_all_feeds user_id = Listing.list_all_feeds_by_user user_id

abbrev pub params_of : String → String → ListFeedArticlesFilter → FeedArticleParams
params_of feed_id user_id filter = record {
  user_id = user_id;
  feed_id = feed_id;
  is_read = nullable_bool filter.is_read;
  period_starting_at = nullable_time filter.period_starting_at;
  period_ending_at = nullable_time filter.period_ending_at;
}

unfoldable pub list_articles_by_feed_for_user :
    String → String → ListFeedArticlesFilter → M (Found FeedArticleRow)
list_articles_by_feed_for_user feed_id user_id filter = do
  rows ←
      FeedArticles.list_articles_by_feed_for_user (params_of feed_id user_id filter)
        (limit filter.page) (offset filter.page)
  total ← FeedArticles.count_articles_by_feed_for_user (params_of feed_id user_id filter)
  pure (record { rows = rows; total = total })
