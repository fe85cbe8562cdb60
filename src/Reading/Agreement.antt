-- ===== src/Reading/Agreement.antt =====
-- The two endpoints of services/endpoints/v1/feeds that count unread articles, on one database.
use Prim.Native.Nat.{min}
use news_feed_backend.Prelude.{
  ℕ, ◌-◌, ◌*◌, String, str_eq, ◌≡◌, ◌∙◌, refl, sym, ap, false, Option, some, none, List, [], ◌∷◌,
  length, take, drop, find_first, exists_of_find_first,
}
use news_feed_backend.Prelude.Int.{ℤ}
use news_feed_backend.Store.{
  Feed, Db, with_transaction, begun, finish, committed, query, read, answered,
}
use news_feed_backend.Pagination.{
  Params, Response, parse_params, rows_of, build_response, max_int32,
}
use news_feed_backend.Pagination.Bounds.{
  IsNormalized, parse_params-IsNormalized, limit_lem, offset_lem,
}
use news_feed_backend.Queries.Order.{sorted, windowed}
use news_feed_backend.Queries.OutboundLinks.{list_article_outbound_links_by_article_ids}
use news_feed_backend.Queries.Feeds.{is_active_feed, find_feed_by_id_and_user}
use news_feed_backend.Queries.ArticlesFeeds.{
  UnreadRow, unread_rows, count_unread_articles_by_feed_for_user,
}
use news_feed_backend.Queries.FeedArticles
use news_feed_backend.Queries.FeedArticles.{FeedArticleRow, feed_rows, row_key}
use news_feed_backend.Controllers.Feeds
use news_feed_backend.Controllers.Filters.{nullable_bool, nullable_time}
use news_feed_backend.Controllers.ArticlesFeeds.{count_unread_by_feed_for_user}
use news_feed_backend.Controllers.Listing.{list_articles_by_feed_for_user}
use news_feed_backend.Controllers.OutboundLinks.{list_by_article_ids}
use news_feed_backend.Outbound.Anchors.{Nodes}
use news_feed_backend.Invariants.ActiveSources.{HasActiveSources}
use news_feed_backend.Endpoints.Reply.{Reply, done, failed, respond, guarded, with_body}
use news_feed_backend.Outcomes.Tokens.{calm}
use news_feed_backend.Reading.Lookups.{check_for_new_articles}
use news_feed_backend.Reading.FeedArticles.{
  FeedArticlesQuery, parse_is_read, parse_utc_time, find_feed_articles, answer_rows, feed_articles,
}
use news_feed_backend.Reading.Unread.{told_of, told_lem, rows_count, unread_params}

rows_of-some :
    {A : Type 0} (p : Params) (rows : List A)
    → IsNormalized p
    → (page : List A) × (rows_of p rows ≡ some page)
unfolding rows_of
rows_of-some p rows n = (
  take p.page_size (drop (min ((p.page - 1) * p.page_size) max_int32) rows),
  rw (limit_lem p n, offset_lem p n) refl,
)

-- The total that a list tells, and the count that a poll tells of a feed.
abbrev pub total_of : {A : Type 0} → Reply (Response A) → Option ℕ
total_of (done status r) = some r.pagination.total_count
total_of (failed status) = none

abbrev pub told_by : String → Reply (List UnreadRow) → Option ℕ
told_by id (done status rows) = some (told_of id rows)
told_by id (failed status) = none

-- The unread articles of a feed, with any page and size.
abbrev pub unread_query : String → String → String → String → FeedArticlesQuery
unread_query id with_sources page page_size = record {
  id = id;
  is_read = "false";
  period_starting_at = "";
  period_ending_at = "";
  with_sources = with_sources;
  page = page;
  page_size = page_size;
}

module _ (atoi : String → Option ℤ) (parse_time : String → Option ℕ) (parse : String → Option Nodes)
    (render : Nodes → Option String) (client_url user_id : String) (db : Db) (now : ℕ)
    (feed : Feed) where
  module _ (id with_sources page_raw size_raw : String) (named : str_eq id "" ≡ false)
      (own : find_first (is_active_feed id user_id) db.feeds ≡ some feed) where
    abbrev matching : List FeedArticleRow
    matching = feed_rows (unread_params user_id id) db db.articles_feeds

    total_lem :
        (page : List FeedArticleRow)
        → rows_of (parse_params atoi page_raw size_raw) (sorted row_key matching) ≡ some page
        → total_of
            (feed_articles parse render atoi parse_time client_url user_id
              (unread_query id with_sources page_raw size_raw)
              (calm db now [])).0
          ≡ some (length matching)
    unfolding feed_articles answer_rows guarded with_body respond with_transaction begun finish
        committed find_feed_articles Feeds.find_by_id find_feed_by_id_and_user query read answered
        list_articles_by_feed_for_user FeedArticles.list_articles_by_feed_for_user
        FeedArticles.count_articles_by_feed_for_user list_by_article_ids
        list_article_outbound_links_by_article_ids windowed rows_of build_response parse_is_read
        parse_utc_time nullable_bool nullable_time
    total_lem [] e = rw (named, own, e) refl
    total_lem (r ∷ rest) e = rw (named, own, e) refl

    told_count :
        told_by id (check_for_new_articles user_id (calm db now [])).0
        ≡ some (told_of id (unread_rows user_id db db.feeds))
    unfolding check_for_new_articles count_unread_by_feed_for_user
        count_unread_articles_by_feed_for_user respond with_transaction begun finish committed query
        read answered
    told_count = refl

    -- While no statement fails, the number of unread articles that CheckForNewArticles tells of a
    -- feed of the caller is the total that FeedArticles tells for is_read=false, with any page and
    -- size; if each live article has an active source.
    pub unread-agree :
        HasActiveSources db
        → (n : ℕ) × ((told_by id (check_for_new_articles user_id (calm db now [])).0 ≡ some n)
            × (total_of
                  (feed_articles parse render atoi parse_time client_url user_id
                    (unread_query id with_sources page_raw size_raw)
                    (calm db now [])).0
                ≡ some n))
    unread-agree sources =
        let there = exists_of_find_first _ db.feeds feed own in
        let page =
          rows_of-some _ (sorted row_key matching)
            (parse_params-IsNormalized atoi page_raw size_raw) in
        let told = told_lem db sources user_id id there db.feeds in
        (
          length matching,
          (
            told_count
                ∙ ap some (rw there at told ∙ sym (rows_count db sources user_id id there _)),
            total_lem page.0 page.1,
          ),
        )
