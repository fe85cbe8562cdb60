-- ===== src/Examples/Reading.antt =====
-- Lists read page by page, a feed, and the read state of an article.
use Prim.Native.String.{[] as end, ◌∷◌ as ◌then◌}
use news_feed_backend.Prelude.{
  ℕ, zero, suc, String, ◌≡◌, refl, ap, false, Option, some, none, List, [], ◌∷◌, map, select,
  count_where, if◌then◌else◌, arith,
}
use news_feed_backend.Prelude.Int.{ℤ, pos}
use news_feed_backend.Store.{
  ArticlesFeed, Source, Db, with_transaction, begun, finish, committed, query, read, answered,
}
use news_feed_backend.Pagination.{
  Response, build_response, total_pages, signed, parse_params, clamp_below, clamp_above, limit,
  offset,
}
use news_feed_backend.Queries.Order.{windowed, sorted_by, insert_sorted, passes}
use news_feed_backend.Queries.Listing
use news_feed_backend.Queries.Listing.{source_key, is_listed_source, feed_key, is_listed_feed}
use news_feed_backend.Controllers.Filters.{nullable_string}
use news_feed_backend.Controllers.Listing as ListControllers
use news_feed_backend.Endpoints.Reply.{Handler, respond}
use news_feed_backend.Outcomes.Tokens.{calm}
use news_feed_backend.Reading.Responses.{SourceResponse, to_source_response}
use news_feed_backend.Reading.Lists.{list_sources}
use news_feed_backend.Reading.Client.{Spells, ask_pages}
use news_feed_backend.Reading.Refinement.{Lists, list_sources-Lists}
use news_feed_backend.Examples.Data.{small_db, paper}

-- A number is spelled with as many letters.
abbrev pub tally : ℕ → String
tally zero = end
tally (suc n) = "x" then tally n

abbrev pub letters : String → ℕ
letters end = 0
letters (c then s) = suc (letters s)

abbrev pub count_letters : String → Option ℤ
count_letters s = some (pos (letters s))

letters-tally : (n : ℕ) → letters (tally n) ≡ n
letters-tally zero = refl
letters-tally (suc n) = ap suc (letters-tally n)

pub tallies : Spells count_letters tally
tallies k one near = ap (λ n. some (pos n)) (letters-tally k)

abbrev pub as_written : String → String
as_written s = s

abbrev second_paper : Source
second_paper = record paper {
  id = "s2";
  name = "Second";
  url = "https://second.example";
  url_rss = "r2";
}

abbrev third_paper : Source
third_paper = record paper {
  id = "s3";
  name = "Third";
  url = "https://third.example";
  url_rss = "r3";
  created_at = 7;
}

abbrev pub unread_story : ArticlesFeed
unread_story = record {
  id = "af1";
  article_id = "a1";
  feed_id = "f1";
  is_read = false;
  created_at = 5;
  modified_at = none;
}

abbrev pub reading_db : Db
reading_db = record small_db {
  sources = paper ∷ second_paper ∷ third_paper ∷ [];
  articles_feeds = unread_story ∷ [];
}

abbrev ask_all_sources : ℕ → Handler (Response SourceResponse)
ask_all_sources k = list_sources as_written count_letters "" "" (tally k) (tally 2)

list_sources-Lists_example :
    (rows : List Source) × (Lists
        (is_listed_source as_written (nullable_string "") (nullable_string ""))
        source_key
        reading_db.sources
        rows
      × (ask_pages (λ d. d) ask_all_sources 2 (calm reading_db 10 [])
          ≡ some (map to_source_response rows)))
unfolding list_sources ListControllers.list_sources Listing.list_sources Listing.count_sources
    respond with_transaction begun finish committed query read answered windowed nullable_string
    passes sorted_by insert_sorted parse_params clamp_below clamp_above limit offset build_response
    total_pages signed select count_where
list_sources-Lists_example =
    list_sources-Lists as_written count_letters tally tallies reading_db 10 2 (omega arith)
      (omega arith) "" "" 2 (omega arith) refl
