-- ===== src/Queries/Listing.antt =====
-- The lists of sqlc/articles.sql.go, sources.sql.go and feeds.sql.go, and the counts beside them.
-- `lower` is the function of the database of that name.
use news_feed_backend.Prelude.{ℕ, String, Bool, ◌&&◌, Option, List, select, count_where}
use news_feed_backend.Prelude.Int.{ℤ}
use news_feed_backend.Store.{Article, Source, Feed, live, M, read, ok}
use news_feed_backend.Queries.Order.{Key, passes, sorted, windowed}
use news_feed_backend.Queries.Feeds.{is_active_feed_of}

abbrev pub article_key : Article → Key
article_key a = record { created_at = a.created_at; id = a.id }

abbrev pub source_key : Source → Key
source_key s = record { created_at = s.created_at; id = s.id }

abbrev pub feed_key : Feed → Key
feed_key f = record { created_at = f.created_at; id = f.id }

abbrev pub is_live_article : Article → Bool
is_live_article a = live a.status a.removed_at

abbrev pub is_live_source : Source → Bool
is_live_source s = live s.status s.removed_at

unfoldable pub list_all_articles : M (List Article)
list_all_articles = read (λ now db. ok (sorted article_key (select is_live_article db.articles)))

unfoldable pub list_all_sources : M (List Source)
list_all_sources = read (λ now db. ok (sorted source_key (select is_live_source db.sources)))

unfoldable pub list_all_feeds_by_user : String → M (List Feed)
list_all_feeds_by_user user_id =
    read (λ now db. ok (sorted feed_key (select (is_active_feed_of user_id) db.feeds)))

module _ (lower : String → String) where
  abbrev pub is_listed_article : Option String → Article → Bool
  is_listed_article url a = is_live_article a && passes lower url a.url_original

  unfoldable pub list_articles : Option String → ℤ → ℤ → M (List Article)
  list_articles url page_limit page_offset = read (λ now db.
      windowed page_limit page_offset
        (sorted article_key (select (is_listed_article url) db.articles)))

  unfoldable pub count_articles : Option String → M ℕ
  count_articles url = read (λ now db. ok (count_where (is_listed_article url) db.articles))

  abbrev pub is_listed_source : Option String → Option String → Source → Bool
  is_listed_source url name s =
      is_live_source s && (passes lower url s.url && passes lower name s.name)

  unfoldable pub list_sources : Option String → Option String → ℤ → ℤ → M (List Source)
  list_sources url name page_limit page_offset = read (λ now db.
      windowed page_limit page_offset
        (sorted source_key (select (is_listed_source url name) db.sources)))

  unfoldable pub count_sources : Option String → Option String → M ℕ
  count_sources url name = read (λ now db. ok (count_where (is_listed_source url name) db.sources))

  abbrev pub is_listed_feed : String → Option String → Feed → Bool
  is_listed_feed user_id name f = is_active_feed_of user_id f && passes lower name f.name

  unfoldable pub list_feeds_by_user : String → Option String → ℤ → ℤ → M (List Feed)
  list_feeds_by_user user_id name page_limit page_offset = read (λ now db.
      windowed page_limit page_offset
        (sorted feed_key (select (is_listed_feed user_id name) db.feeds)))

  unfoldable pub count_feeds_by_user : String → Option String → M ℕ
  count_feeds_by_user user_id name =
      read (λ now db. ok (count_where (is_listed_feed user_id name) db.feeds))
