-- ===== src/Examples/FeedReading.antt =====
-- A feed with one unread article, read by its owner.
use mathlib.Core.List.{Perm}
use news_feed_backend.Prelude.{
  ℕ, String, ◌≡◌, refl, Bool, true, false, Option, some, none, List, [], ◌∷◌, map, exists,
  find_first, select, All, if◌then◌else◌, arith,
}
use news_feed_backend.Prelude.Int.{pos}
use news_feed_backend.Store.{with_transaction, begun, finish, committed, query, read, answered}
use news_feed_backend.Pagination.{
  Response, build_response, total_pages, signed, parse_params, clamp_below, clamp_above, limit,
  offset,
}
use news_feed_backend.Pagination.Pages.{page_number}
use news_feed_backend.Queries.Order.{windowed, sorted_by, insert_sorted}
use news_feed_backend.Queries.Feeds.{is_active_feed, find_feed_by_id_and_user}
use news_feed_backend.Queries.FeedArticles
use news_feed_backend.Queries.FeedArticles.{FeedArticleRow, feed_rows, joined_row, row_key}
use news_feed_backend.Queries.ArticlesFeeds.{is_of_article_and_user}
use news_feed_backend.Queries.OutboundLinks.{list_article_outbound_links_by_article_ids}
use news_feed_backend.Controllers.Feeds
use news_feed_backend.Controllers.Filters.{nullable_bool, nullable_time}
use news_feed_backend.Controllers.Listing as ListControllers
use news_feed_backend.Controllers.Listing.{params_of}
use news_feed_backend.Controllers.OutboundLinks.{list_by_article_ids}
use news_feed_backend.Outbound.Anchors.{Nodes}
use news_feed_backend.Endpoints.Reply.{Handler, respond, guarded, with_body}
use news_feed_backend.Endpoints.Articles.{mark_as_read}
use news_feed_backend.Outcomes.Tokens.{calm}
use news_feed_backend.Reading.Responses.{ArticleResponse}
use news_feed_backend.Reading.Lists.{list_articles, list_sources, list_feeds}
use news_feed_backend.Reading.Lookups.{get_article, get_source, get_feed, check_for_new_articles}
use news_feed_backend.Reading.Untouched.{Spares, reads-Spares}
use news_feed_backend.Reading.FeedArticles.{
  FeedArticlesQuery, parse_is_read, parse_utc_time, row_to_article_response, find_feed_articles,
  answer_rows, feed_articles, shown_row,
}
use news_feed_backend.Reading.Suggestions.{suggest}
use news_feed_backend.Reading.Sorting.{IsDescending}
use news_feed_backend.Reading.FeedRows.{AreMatching}
use news_feed_backend.Reading.Client.{ask_pages}
use news_feed_backend.Reading.ArticleLists.{without_content}
use news_feed_backend.Reading.FeedSafety.{IsShown, filter_of, feed_articles-IsShown}
use news_feed_backend.Reading.FeedPages.{feed_articles-shows_all}
use news_feed_backend.Reading.Agreement.{told_by, total_of, unread_query, unread-agree}
use news_feed_backend.Reading.ReadState.{status_of, state_of, get_article-mark_as_read}
use news_feed_backend.Examples.Data.{lower_same, story, paper, sea_feed}
use news_feed_backend.Examples.Reading.{
  reading_db, unread_story, as_written, count_letters, tally, tallies, letters,
}

-- Bodies without an anchor are served as they are.
abbrev no_html : String → Option Nodes
no_html s = none

abbrev no_out : Nodes → Option String
no_out nodes = none

-- The text of a bound is as long as its instant.
abbrev time_of : String → Option ℕ
time_of s = some (letters s)

abbrev sea_query : FeedArticlesQuery
sea_query = record {
  id = "f1";
  is_read = "false";
  period_starting_at = "xxx";
  period_ending_at = "";
  with_sources = "true";
  page = "x";
  page_size = "xx";
}

abbrev ask_sea : ℕ → Handler (Response ArticleResponse)
ask_sea k =
    feed_articles no_html no_out count_letters time_of "https://news.example" "u1"
      (record sea_query { page = tally k; page_size = tally 2 })

feed_articles-shows_all_example :
    (let wanted =
        params_of "f1" "u1" (filter_of count_letters sea_query (some false) (some 3) none) in
      (docs : List ArticleResponse) × ((matched : List ArticleResponse) × (AreMatching wanted
            reading_db true reading_db.articles_feeds matched
          × (Perm docs matched
              × (IsDescending (λ (d : ArticleResponse). d.created_at) docs
                  × (ask_pages without_content ask_sea 1 (calm reading_db 10 []) ≡ some docs))))))
unfolding feed_articles answer_rows guarded with_body respond with_transaction begun finish
    committed find_feed_articles Feeds.find_by_id find_feed_by_id_and_user query read answered
    ListControllers.list_articles_by_feed_for_user FeedArticles.list_articles_by_feed_for_user
    FeedArticles.count_articles_by_feed_for_user list_by_article_ids
    list_article_outbound_links_by_article_ids windowed sorted_by insert_sorted parse_params
    clamp_below clamp_above limit offset build_response total_pages signed select find_first exists
    feed_rows parse_is_read parse_utc_time nullable_bool nullable_time
feed_articles-shows_all_example =
    feed_articles-shows_all count_letters tally tallies time_of no_html no_out
      "https://news.example" "u1" reading_db 10 2 (omega arith) (omega arith) sea_query (some false)
      (some 3) none refl refl refl refl sea_feed refl 1 (omega arith) refl

-- The association of the story, joined with its article and source.
abbrev sea_rows : List FeedArticleRow
sea_rows = joined_row unread_story story paper ∷ []

abbrev sea_reply : Response ArticleResponse
sea_reply =
    build_response (map (shown_row no_html no_out [] "https://news.example" true) sea_rows) 1
      (page_number 2 1)

feed_articles-IsShown_example :
    (exists (is_active_feed "f1" "u1") reading_db.feeds ≡ true)
    × ((is_read : Option Bool) × ((start : Option ℕ) × ((end : Option ℕ) × ((parse_is_read "false"
                ≡ some is_read)
              × ((parse_utc_time time_of "xxx" ≡ some start)
                  × ((parse_utc_time time_of "" ≡ some end)
                      × All
                          (IsShown no_html no_out
                            (params_of "f1" "u1"
                              (filter_of count_letters sea_query is_read start end))
                            reading_db
                            true)
                          sea_reply.docs))))))
unfolding feed_articles answer_rows guarded with_body respond with_transaction begun finish
    committed find_feed_articles Feeds.find_by_id find_feed_by_id_and_user query read answered
    ListControllers.list_articles_by_feed_for_user FeedArticles.list_articles_by_feed_for_user
    FeedArticles.count_articles_by_feed_for_user list_by_article_ids
    list_article_outbound_links_by_article_ids windowed sorted_by insert_sorted parse_params
    clamp_below clamp_above limit offset build_response total_pages signed select find_first exists
    feed_rows parse_is_read parse_utc_time nullable_bool nullable_time row_to_article_response
feed_articles-IsShown_example =
    feed_articles-IsShown no_html no_out count_letters time_of "https://news.example" "u1" sea_query
      (calm reading_db 10 []) 200 sea_reply refl

unread-agree_example :
    (n : ℕ) × ((told_by "f1" (check_for_new_articles "u1" (calm reading_db 10 [])).0 ≡ some n)
      × (total_of
            (feed_articles no_html no_out count_letters time_of "https://news.example" "u1"
              (unread_query "f1" "" "x" "xx")
              (calm reading_db 10 [])).0
          ≡ some n))
unfolding find_first exists
unread-agree_example =
    unread-agree count_letters time_of no_html no_out "https://news.example" "u1" reading_db 10
      sea_feed "f1" "" "x" "xx" refl refl ((λ live. refl), tt)

get_article-mark_as_read_example :
    (let reply = mark_as_read "a1" "u1" (calm reading_db 10 []) in
      let shown = (get_article no_html no_out "https://news.example" "u1" "a1" reply.1).0 in
      if exists (is_of_article_and_user "a1" "u1" reading_db) reading_db.articles_feeds
      then (status_of reply.0 ≡ 200) × (state_of shown ≡ some (some true))
      else (status_of reply.0 ≡ 204) × (state_of shown ≡ some none))
unfolding find_first
get_article-mark_as_read_example =
    get_article-mark_as_read reading_db "a1" "u1" 10 no_html no_out "https://news.example" story
      refl refl

reads-Spares_example :
    (let w = calm reading_db 10 [] in
      Spares (get_article no_html no_out "" "u1" "a1") w
      × (Spares (get_source "a1") w
          × (Spares (get_feed "u1" "a1") w
              × (Spares (check_for_new_articles "u1") w
                  × (Spares (list_articles as_written count_letters no_html no_out "" "" "" "") w
                      × (Spares (list_sources as_written count_letters "" "" "" "") w
                          × (Spares (list_feeds as_written count_letters "u1" "" "" "") w
                              × (Spares
                                    (feed_articles no_html no_out count_letters time_of "" "u1"
                                      sea_query)
                                    w
                                  × Spares
                                      (suggest lower_same count_letters (pos 7) "sea" "xxx")
                                      w))))))))
reads-Spares_example =
    reads-Spares (calm reading_db 10 []) as_written count_letters time_of no_html no_out "" "u1"
      "a1" "" "" "" "" sea_query lower_same (pos 7) "sea" "xxx"
