-- ===== src/Reading/FeedPages.antt =====
-- FeedArticles read page by page: the articles of a feed, each association once, the newest first.
use mathlib.Core.List.{Perm}
use mathlib.Core.List.Perm
use news_feed_backend.Prelude.{
  ℕ, ◌+◌, ◌≤◌, String, str_eq, ◌≡◌, refl, ap, Bool, false, Option, some, none, List, [], ◌∷◌, map,
  length, find_first, arith,
}
use news_feed_backend.Prelude.Int.{ℤ, pos}
use news_feed_backend.Store.{
  ArticleOutboundLink, Feed, Db, with_transaction, begun, finish, committed, query, read, answered,
}
use news_feed_backend.Pagination.{Response, rows_of, max_int32, max_page_size}
use news_feed_backend.Queries.Order.{comes_first, sorted, windowed}
use news_feed_backend.Queries.OutboundLinks.{list_article_outbound_links_by_article_ids}
use news_feed_backend.Queries.Feeds.{is_active_feed, find_feed_by_id_and_user}
use news_feed_backend.Queries.FeedArticles
use news_feed_backend.Queries.FeedArticles.{FeedArticleRow, FeedArticleParams, feed_rows, row_key}
use news_feed_backend.Controllers.Feeds
use news_feed_backend.Controllers.Listing.{params_of, list_articles_by_feed_for_user}
use news_feed_backend.Controllers.OutboundLinks.{list_by_article_ids}
use news_feed_backend.Outbound.Anchors.{Nodes}
use news_feed_backend.Endpoints.Reply.{failed, respond, guarded, with_body, Handler}
use news_feed_backend.Outcomes.Tokens.{calm}
use news_feed_backend.Reading.Responses.{ArticleResponse}
use news_feed_backend.Reading.FeedArticles.{
  FeedArticlesQuery, parse_is_read, parse_utc_time, row_to_article_response, shown_row,
  find_feed_articles, answer_rows, feed_articles, feed_article_ids,
}
use news_feed_backend.Reading.FeedRows.{plain_row, AreMatching, feed_rows-AreMatching}
use news_feed_backend.Reading.FeedSafety.{filter_of}
use news_feed_backend.Reading.Sorting.{
  IsDescending, sorted-Perm, sorted-IsNewestFirst, length-sorted,
}
use news_feed_backend.Reading.Client.{
  Spells, Answers, ask_pages, pages_of, ask_all_pages, parse_params_spelled,
}
use news_feed_backend.Reading.ArticleLists.{without_content, links_among}

map-IsDescending :
    {A B : Type 0} (measure : B → ℕ) (f : A → B) (xs : List A)
    → IsDescending (λ x. measure (f x)) xs
    → IsDescending measure (map f xs)
map-IsDescending measure f [] h = tt
map-IsDescending measure f (x ∷ []) (less, h) = (tt, h)
map-IsDescending measure f (x ∷ y ∷ ys) (less, h) = (less, map-IsDescending measure f (y ∷ ys) h)

module _ (atoi : String → Option ℤ) (spell : ℕ → String) (spells : Spells atoi spell)
    (parse_time : String → Option ℕ) (parse : String → Option Nodes)
    (render : Nodes → Option String) (client_url user_id : String) (db : Db) (now size : ℕ)
    (low : 1 ≤ size) (high : size ≤ max_page_size) (q : FeedArticlesQuery) (is_read : Option Bool)
    (start end : Option ℕ) (named : str_eq q.id "" ≡ false)
    (read_is : parse_is_read q.is_read ≡ some is_read)
    (start_is : parse_utc_time parse_time q.period_starting_at ≡ some start)
    (end_is : parse_utc_time parse_time q.period_ending_at ≡ some end) where
  -- The request of a page.
  abbrev page_query : ℕ → FeedArticlesQuery
  page_query k = record q { page = spell k; page_size = spell size }

  abbrev ask_feed : ℕ → Handler (Response ArticleResponse)
  ask_feed k = feed_articles parse render atoi parse_time client_url user_id (page_query k)

  abbrev wanted : FeedArticleParams
  wanted = params_of q.id user_id (filter_of atoi q is_read start end)

  abbrev matching : List FeedArticleRow
  matching = feed_rows wanted db db.articles_feeds

  abbrev plain : FeedArticleRow → ArticleResponse
  plain = plain_row wanted db (str_eq q.with_sources "true")

  -- A feed that is missing, removed or another user's is not found.
  pub feed_articles-hidden :
      find_first (is_active_feed q.id user_id) db.feeds ≡ none
      → (k : ℕ) → (ask_feed k (calm db now [])).0 ≡ failed 404
  unfolding feed_articles answer_rows guarded with_body respond with_transaction begun finish
      committed find_feed_articles Feeds.find_by_id find_feed_by_id_and_user query read answered
  feed_articles-hidden hidden k = rw (named, read_is, start_is, end_is, hidden) refl

  module _ (feed : Feed) (own : find_first (is_active_feed q.id user_id) db.feeds ≡ some feed) where
    view_lem :
        (links : List ArticleOutboundLink) (page : List FeedArticleRow)
        → map without_content
            (map (shown_row parse render links client_url (str_eq q.with_sources "true")) page)
          ≡ map plain page
    view_lem links [] = refl
    view_lem links (r ∷ rest) = ap (λ x. plain r ∷ x) (view_lem links rest)

    feed_answer :
        Answers without_content plain (sorted row_key matching) size ask_feed (calm db now [])
    unfolding feed_articles answer_rows guarded with_body respond with_transaction begun finish
        committed find_feed_articles Feeds.find_by_id find_feed_by_id_and_user query read answered
        list_articles_by_feed_for_user FeedArticles.list_articles_by_feed_for_user
        FeedArticles.count_articles_by_feed_for_user list_by_article_ids
        list_article_outbound_links_by_article_ids windowed rows_of
    feed_answer k [] one near e = (
      [],
      (
        rw
            (
              named,
              read_is,
              start_is,
              end_is,
              own,
              parse_params_spelled atoi spell spells size k low high one near,
              e,
              length-sorted (comes_first row_key) matching,
            )
            refl,
        refl,
      ),
    )
    feed_answer k (r ∷ rest) one near e =
        let links = links_among db (feed_article_ids (r ∷ rest)) in
        (
          map (shown_row parse render links client_url (str_eq q.with_sources "true")) (r ∷ rest),
          (
            rw
                (
                  named,
                  read_is,
                  start_is,
                  end_is,
                  own,
                  parse_params_spelled atoi spell spells size k low high one near,
                  e,
                  length-sorted (comes_first row_key) matching,
                )
                refl,
            view_lem links (r ∷ rest),
          ),
        )

    -- As for ListSources, for a size from 1 to 100: the pages of FeedArticles put together show,
    -- but for the content, each association of the caller's feed with an active article of an
    -- active source that passes the filters exactly once, and nothing else, the newest first.
    pub feed_articles-shows_all :
        (n : ℕ)
        → length matching + size ≤ max_int32
        → pages_of (ask_feed 1 (calm db now [])).0 ≡ some (pos n)
        → (docs : List ArticleResponse) × ((matched : List ArticleResponse) × (AreMatching wanted db
                (str_eq q.with_sources "true")
                db.articles_feeds
                matched
              × (Perm docs matched
                  × (IsDescending (λ (d : ArticleResponse). d.created_at) docs
                      × (ask_pages without_content ask_feed n (calm db now []) ≡ some docs)))))
    unfolding row_to_article_response
    feed_articles-shows_all n near told =
        let rows = sorted row_key matching in
        let few : length rows + size ≤ max_int32 =
          omega (arith, near, length-sorted (comes_first row_key) matching) in
        (
          map plain rows,
          (
            map plain matching,
            (
              feed_rows-AreMatching wanted db (str_eq q.with_sources "true") db.articles_feeds,
              (
                Perm.map plain (sorted-Perm (comes_first row_key) matching),
                (
                  map-IsDescending (λ (d : ArticleResponse). d.created_at) plain rows
                      (sorted-IsNewestFirst row_key matching),
                  ask_all_pages without_content plain rows size ask_feed (calm db now [])
                      feed_answer n low high few told,
                ),
              ),
            ),
          ),
        )
