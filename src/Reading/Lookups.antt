-- ===== src/Reading/Lookups.antt =====
-- services/endpoints/v1: articles/get.go, sources/get.go, feeds/get.go and
-- feeds/check_new_articles.go. `parse` and `render` are the HTML library.
use news_feed_backend.Prelude.{ℕ, String, Option, List, [], ◌∷◌}
use news_feed_backend.Store.{
  Article, ArticlesFeed, ArticleOutboundLink, Error, M, pure, ◌>>=◌, with_transaction,
  source_not_found,
}
use news_feed_backend.Queries.ArticlesFeeds.{UnreadRow}
use news_feed_backend.Controllers.Articles
use news_feed_backend.Controllers.ArticlesFeeds
use news_feed_backend.Controllers.ArticlesFeeds.{is_read_state}
use news_feed_backend.Controllers.Feeds
use news_feed_backend.Controllers.Sources
use news_feed_backend.Controllers.OutboundLinks
use news_feed_backend.Outbound.Anchors.{Nodes}
use news_feed_backend.Endpoints.Reply.{Handler, respond, guarded, id_message}
use news_feed_backend.Endpoints.Articles as ArticleEndpoints
use news_feed_backend.Endpoints.Feeds as FeedEndpoints
use news_feed_backend.Endpoints.Sessions.{internal_failure}
use news_feed_backend.Reading.Responses.{
  ArticleResponse, SourceResponse, FeedResponse, shown_article, to_source_response,
  to_feed_response,
}

abbrev pub source_failure : Error → ℕ
source_failure source_not_found = 404
source_failure _ = 500

unfoldable pub get_source : String → Handler SourceResponse
get_source id = guarded (id_message id) (
    respond 200 source_failure
      (with_transaction (Sources.find_by_id id) >>= λ source. pure (to_source_response source)))

-- For the user of the claims.
unfoldable pub get_feed : String → String → Handler FeedResponse
get_feed user_id id = guarded (id_message id) (
    respond 200 FeedEndpoints.not_found_failure
      (with_transaction (Feeds.find_by_id id user_id) >>= λ feed. pure (to_feed_response feed)))

-- An entry of the answer of CheckForNewArticles is a row: the id of a feed, and its count.
unfoldable pub check_for_new_articles : String → Handler (List UnreadRow)
check_for_new_articles user_id =
    respond 200 internal_failure
      (with_transaction (ArticlesFeeds.count_unread_by_feed_for_user user_id))

pub record FoundArticle : Type 0 where
  pub article : Article
  pub records : List ArticlesFeed
  pub links : List ArticleOutboundLink

-- The body of the transaction of GetArticle.
unfoldable pub find_article : String → String → M FoundArticle
find_article id user_id = do
  article ← Articles.find_by_id id
  records ← ArticlesFeeds.find_by_article_and_user id user_id
  links ← OutboundLinks.list_by_article_ids (id ∷ [])
  pure (record { article = article; records = records; links = links })

module _ (parse : String → Option Nodes) (render : Nodes → Option String) where
  abbrev pub article_reply : String → FoundArticle → ArticleResponse
  article_reply client_url r = record (shown_article parse render r.links client_url r.article) {
    is_read = is_read_state r.records;
  }

  -- For the user of the claims.
  unfoldable pub get_article : String → String → String → Handler ArticleResponse
  get_article client_url user_id id = guarded (id_message id) (
      respond 200 ArticleEndpoints.not_found_failure
        (with_transaction (find_article id user_id) >>= λ r. pure (article_reply client_url r)))
