-- ===== src/Reading/FeedArticles.antt =====
-- services/endpoints/v1/feeds/articles.go. `atoi` is strconv.Atoi, `parse_time` is time.Parse with
-- the layout RFC3339, and `parse` and `render` are the HTML library.
use news_feed_backend.Prelude.{
  ℕ, String, str_eq, Bool, true, false, Option, none, some, List, [], ◌∷◌, map, if◌then◌else◌,
}
use news_feed_backend.Prelude.Int.{ℤ}
use news_feed_backend.Store.{ArticleOutboundLink, M, pure, ◌>>=◌, ◌>>◌, with_transaction}
use news_feed_backend.Pagination.{Response, parse_params, build_response}
use news_feed_backend.Queries.FeedArticles.{FeedArticleRow}
use news_feed_backend.Controllers.Filters.{ListFeedArticlesFilter}
use news_feed_backend.Controllers.Feeds
use news_feed_backend.Controllers.Listing.{Found, list_articles_by_feed_for_user}
use news_feed_backend.Controllers.OutboundLinks
use news_feed_backend.Outbound.Anchors.{Nodes}
use news_feed_backend.Outbound.Bodies.{resolve}
use news_feed_backend.Endpoints.Reply.{Handler, respond, guarded, with_body, id_message}
use news_feed_backend.Endpoints.Feeds.{not_found_failure}
use news_feed_backend.Reading.Responses.{ArticleResponse, SourceResponse, outbound_links_by_id}

-- The query of the request, as it is spelled.
pub record FeedArticlesQuery : Type 0 where
  pub id : String
  pub is_read : String
  pub period_starting_at : String
  pub period_ending_at : String
  pub with_sources : String
  pub page : String
  pub page_size : String

-- The outer option is none for an error, the inner one for no filter.
unfoldable pub parse_is_read : String → Option (Option Bool)
parse_is_read raw =
    if str_eq raw ""
    then some none
    else if str_eq raw "true"
    then some (some true)
    else if str_eq raw "false"
    then some (some false)
    else none

abbrev pub bound_of : Option ℕ → Option (Option ℕ)
bound_of none = none
bound_of (some t) = some (some t)

unfoldable pub parse_utc_time : (String → Option ℕ) → String → Option (Option ℕ)
parse_utc_time parse_time raw = if str_eq raw "" then some none else bound_of (parse_time raw)

abbrev pub feed_article_ids : List FeedArticleRow → List String
feed_article_ids [] = []
feed_article_ids (r ∷ rest) = r.id ∷ feed_article_ids rest

abbrev pub row_source : FeedArticleRow → SourceResponse
row_source row = record {
  id = row.source_id;
  status = row.source_status;
  name = row.source_name;
  url = row.source_url;
  url_rss = row.source_url_rss;
  created_at = row.source_created_at;
  modified_at = row.source_modified_at;
}

unfoldable pub row_to_article_response : FeedArticleRow → Bool → ArticleResponse
row_to_article_response row with_sources = record {
  id = row.id;
  status = row.status;
  title = row.title;
  content = row.content;
  url_original = row.url_original;
  keywords = row.keywords;
  source_id = row.source_id;
  language_original = row.language_original;
  created_at = row.created_at;
  modified_at = row.modified_at;
  is_read = some row.is_read;
  source = if with_sources then some (row_source row) else none;
}

pub record FoundRows : Type 0 where
  pub found : Found FeedArticleRow
  pub links : List ArticleOutboundLink

-- The body of the transaction of FeedArticles.
unfoldable pub find_feed_articles : String → String → ListFeedArticlesFilter → M FoundRows
find_feed_articles id user_id filter = do
  Feeds.find_by_id id user_id
  found ← list_articles_by_feed_for_user id user_id filter
  links ← OutboundLinks.list_by_article_ids (feed_article_ids found.rows)
  pure (record { found = found; links = links })

module _ (parse : String → Option Nodes) (render : Nodes → Option String) where
  abbrev pub shown_row : List ArticleOutboundLink → String → Bool → FeedArticleRow → ArticleResponse
  shown_row links client_url with_sources row = record (row_to_article_response row with_sources) {
    content =
        resolve parse render (row_to_article_response row with_sources).content
          (outbound_links_by_id links) client_url;
  }

  -- What follows the parsing of the query.
  unfoldable pub answer_rows :
      String → String → String → Bool → ListFeedArticlesFilter → Handler (Response ArticleResponse)
  answer_rows client_url user_id id with_sources filter = respond 200 not_found_failure (
      with_transaction (find_feed_articles id user_id filter) >>= λ r. pure (
        build_response (map (shown_row r.links client_url with_sources) r.found.rows) r.found.total
          filter.page))

  -- For the user of the claims.
  unfoldable pub feed_articles :
      (String → Option ℤ)
      → (String → Option ℕ)
      → String
      → String
      → FeedArticlesQuery
      → Handler (Response ArticleResponse)
  unfolding answer_rows
  feed_articles atoi parse_time client_url user_id q = guarded (id_message q.id) (
      with_body (parse_is_read q.is_read) λ is_read.
        with_body (parse_utc_time parse_time q.period_starting_at) λ start.
          with_body (parse_utc_time parse_time q.period_ending_at) λ end.
            answer_rows client_url user_id q.id (str_eq q.with_sources "true") (record {
              is_read = is_read;
              period_starting_at = start;
              period_ending_at = end;
              page = parse_params atoi q.page q.page_size;
            }))
