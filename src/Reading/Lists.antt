-- ===== src/Reading/Lists.antt =====
-- services/endpoints/v1: articles/list.go, sources/list.go and feeds/list.go. `lower` is the
-- function of the database of that name, `atoi` is strconv.Atoi, and `parse` and `render` are the
-- HTML library.
use news_feed_backend.Prelude.{String, Option, List, [], ◌∷◌, map}
use news_feed_backend.Prelude.Int.{ℤ}
use news_feed_backend.Store.{Article, ArticleOutboundLink, M, pure, ◌>>=◌, with_transaction}
use news_feed_backend.Pagination.{Response, parse_params, build_response}
use news_feed_backend.Controllers.Filters.{ListArticlesFilter, ListSourcesFilter, ListFeedsFilter}
use news_feed_backend.Controllers.Listing
use news_feed_backend.Controllers.Listing.{Found}
use news_feed_backend.Controllers.OutboundLinks
use news_feed_backend.Outbound.Anchors.{Nodes}
use news_feed_backend.Endpoints.Reply.{Handler, respond}
use news_feed_backend.Endpoints.Sessions.{internal_failure}
use news_feed_backend.Reading.Responses.{
  ArticleResponse, SourceResponse, FeedResponse, shown_article, to_source_response,
  to_feed_response,
}

-- A page of articles, with the links of their bodies.
pub record FoundArticles : Type 0 where
  pub found : Found Article
  pub links : List ArticleOutboundLink

abbrev pub article_ids : List Article → List String
article_ids [] = []
article_ids (a ∷ rest) = a.id ∷ article_ids rest

module _ (lower : String → String) (atoi : String → Option ℤ) where
  abbrev pub sources_filter : String → String → String → String → ListSourcesFilter
  sources_filter url name page page_size = record {
    url = url;
    name = name;
    page = parse_params atoi page page_size;
  }

  unfoldable pub list_sources :
      String → String → String → String → Handler (Response SourceResponse)
  list_sources url name page page_size =
      let filter = sources_filter url name page page_size in
      respond 200 internal_failure (
        with_transaction (Listing.list_sources lower filter) >>= λ found.
        pure (build_response (map to_source_response found.rows) found.total filter.page))

  abbrev pub feeds_filter : String → String → String → ListFeedsFilter
  feeds_filter name page page_size = record { name = name; page = parse_params atoi page page_size }

  -- For the user of the claims.
  unfoldable pub list_feeds : String → String → String → String → Handler (Response FeedResponse)
  list_feeds user_id name page page_size =
      let filter = feeds_filter name page page_size in
      respond 200 internal_failure (
        with_transaction (Listing.list_feeds lower user_id filter) >>= λ found.
        pure (build_response (map to_feed_response found.rows) found.total filter.page))

  abbrev pub articles_filter : String → String → String → ListArticlesFilter
  articles_filter url page page_size = record { url = url; page = parse_params atoi page page_size }

  -- The body of the transaction of ListArticles.
  unfoldable pub find_articles : ListArticlesFilter → M FoundArticles
  find_articles filter = do
    found ← Listing.list_articles lower filter
    links ← OutboundLinks.list_by_article_ids (article_ids found.rows)
    pure (record { found = found; links = links })

module _ (lower : String → String) (atoi : String → Option ℤ) (parse : String → Option Nodes)
    (render : Nodes → Option String) where
  unfoldable pub list_articles :
      String → String → String → String → Handler (Response ArticleResponse)
  list_articles client_url url page page_size =
      let filter = articles_filter lower atoi url page page_size in
      respond 200 internal_failure (
        with_transaction (find_articles lower atoi filter) >>= λ r. pure (
          build_response (map (shown_article parse render r.links client_url) r.found.rows)
            r.found.total filter.page))
