-- ===== src/Reading/Refinement.antt =====
-- The abstract view of a list: the rows that match, each once, the newest first. The handlers of
-- Lists implement it page by page.
use mathlib.Core.List.{Perm}
use news_feed_backend.Prelude.{
  ℕ, ◌+◌, ◌≤◌, String, ◌≡◌, ◌∙◌, refl, sym, Option, some, List, [], map, length, select,
  count_where, arith, Bool,
}
use news_feed_backend.Prelude.Int.{ℤ, pos}
use news_feed_backend.Store.{
  Source, Feed, Db, with_transaction, begun, finish, committed, query, read, answered,
}
use news_feed_backend.Pagination.{Response, rows_of, max_int32, max_page_size}
use news_feed_backend.Queries.Order.{Key, comes_first, sorted, windowed}
use news_feed_backend.Queries.Listing
use news_feed_backend.Queries.Listing.{source_key, is_listed_source, feed_key, is_listed_feed}
use news_feed_backend.Controllers.Filters.{nullable_string}
use news_feed_backend.Controllers.Listing as ListControllers
use news_feed_backend.Endpoints.Reply.{respond, Handler}
use news_feed_backend.Outcomes.Tokens.{calm}
use news_feed_backend.Reading.Responses.{
  SourceResponse, FeedResponse, to_source_response, to_feed_response,
}
use news_feed_backend.Reading.Lists.{list_sources, list_feeds}
use news_feed_backend.Reading.Sorting.{
  IsNewestFirst, sorted-Perm, sorted-IsNewestFirst, length-sorted, count_where-select,
}
use news_feed_backend.Reading.Client.{
  Spells, Answers, ask_pages, pages_of, ask_all_pages, parse_params_spelled, map_id,
}

module _ {A : Type 0} (test : A → Bool) (key : A → Key) where
  -- The list holds the rows of the table that the test selects, each once, the newest first.
  pub record Lists (table rows : List A) : Type 0 where
    pub all : Perm rows (select test table)
    pub ordered : IsNewestFirst key rows

  pub sorted-Lists : (table : List A) → Lists table (sorted key (select test table))
  sorted-Lists table = record {
    all = sorted-Perm (comes_first key) (select test table);
    ordered = sorted-IsNewestFirst key (select test table);
  }

  pub count_lem :
      (table : List A) → count_where test table ≡ length (sorted key (select test table))
  count_lem table =
      count_where-select test table ∙ sym (length-sorted (comes_first key) (select test table))

module _ (lower : String → String) (atoi : String → Option ℤ) (spell : ℕ → String)
    (spells : Spells atoi spell) (db : Db) (now size : ℕ) (low : 1 ≤ size)
    (high : size ≤ max_page_size) where
  module _ (url name : String) where
    abbrev source_test : Source → Bool
    source_test = is_listed_source lower (nullable_string url) (nullable_string name)

    abbrev ask_sources : ℕ → Handler (Response SourceResponse)
    ask_sources k = list_sources lower atoi url name (spell k) (spell size)

    sources_answer :
        Answers
          (λ d. d)
          to_source_response
          (sorted source_key (select source_test db.sources))
          size
          ask_sources
          (calm db now [])
    unfolding list_sources ListControllers.list_sources Listing.list_sources Listing.count_sources
        respond with_transaction begun finish committed query read answered windowed rows_of
    sources_answer k page one near e = (
      map to_source_response page,
      (
        rw
            (
              parse_params_spelled atoi spell spells size k low high one near,
              e,
              count_lem source_test source_key db.sources,
            )
            refl,
        map_id (map to_source_response page),
      ),
    )

    -- A client that asks ListSources for as many pages as the first answer tells, while the
    -- database stays as it is and no statement fails, gets every active source that passes the two
    -- filters exactly once, the newest first; if strconv.Atoi reads the texts of the numbers, the
    -- size is between 1 and 100, and the rows and one page more are at most MaxInt32.
    pub list_sources-Lists :
        (n : ℕ)
        → length (select source_test db.sources) + size ≤ max_int32
        → pages_of (ask_sources 1 (calm db now [])).0 ≡ some (pos n)
        → (rows : List Source) × (Lists source_test source_key db.sources rows
            × (ask_pages (λ d. d) ask_sources n (calm db now [])
                ≡ some (map to_source_response rows)))
    list_sources-Lists n near told =
        let rows = sorted source_key (select source_test db.sources) in
        let few : length rows + size ≤ max_int32 =
          omega
            (arith, near, length-sorted (comes_first source_key) (select source_test db.sources)) in
        (
          rows,
          (
            sorted-Lists source_test source_key db.sources,
            ask_all_pages (λ d. d) to_source_response rows size ask_sources (calm db now [])
                sources_answer n low high few told,
          ),
        )

  module _ (user_id name : String) where
    abbrev feed_test : Feed → Bool
    feed_test = is_listed_feed lower user_id (nullable_string name)

    abbrev ask_feeds : ℕ → Handler (Response FeedResponse)
    ask_feeds k = list_feeds lower atoi user_id name (spell k) (spell size)

    feeds_answer :
        Answers
          (λ d. d)
          to_feed_response
          (sorted feed_key (select feed_test db.feeds))
          size
          ask_feeds
          (calm db now [])
    unfolding list_feeds ListControllers.list_feeds Listing.list_feeds_by_user
        Listing.count_feeds_by_user respond with_transaction begun finish committed query read
        answered windowed rows_of
    feeds_answer k page one near e = (
      map to_feed_response page,
      (
        rw
            (
              parse_params_spelled atoi spell spells size k low high one near,
              e,
              count_lem feed_test feed_key db.feeds,
            )
            refl,
        map_id (map to_feed_response page),
      ),
    )

    -- As for ListSources: the pages of ListFeeds put together are the active feeds of the caller
    -- that pass the filter, each once, the newest first.
    pub list_feeds-Lists :
        (n : ℕ)
        → length (select feed_test db.feeds) + size ≤ max_int32
        → pages_of (ask_feeds 1 (calm db now [])).0 ≡ some (pos n)
        → (rows : List Feed) × (Lists feed_test feed_key db.feeds rows
            × (ask_pages (λ d. d) ask_feeds n (calm db now []) ≡ some (map to_feed_response rows)))
    list_feeds-Lists n near told =
        let rows = sorted feed_key (select feed_test db.feeds) in
        let few : length rows + size ≤ max_int32 =
          omega (arith, near, length-sorted (comes_first feed_key) (select feed_test db.feeds)) in
        (
          rows,
          (
            sorted-Lists feed_test feed_key db.feeds,
            ask_all_pages (λ d. d) to_feed_response rows size ask_feeds (calm db now [])
                feeds_answer n low high few told,
          ),
        )
