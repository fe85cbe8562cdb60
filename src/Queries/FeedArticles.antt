-- ===== src/Queries/FeedArticles.antt =====
-- ListArticlesByFeedForUser and CountArticlesByFeedForUser of sqlc/articles_feeds.sql.go.
use news_feed_backend.Prelude.{
  ℕ, String, str_eq, Bool, true, false, not, ◌&&◌, Option, none, some, List, [], ◌∷◌, leb, exists,
  find_first, length, if◌then◌else◌,
}
use news_feed_backend.Prelude.Int.{ℤ}
use news_feed_backend.Store.{Article, ArticlesFeed, Source, Db, M, read, ok}
use news_feed_backend.Queries.Order.{Key, sorted, windowed}
use news_feed_backend.Queries.Articles.{is_active_article}
use news_feed_backend.Queries.Sources.{is_active_source}
use news_feed_backend.Queries.Feeds.{is_active_feed}

pub record FeedArticleRow : Type 0 where
  pub id : String
  pub status : Bool
  pub title : String
  pub content : String
  pub url_original : String
  pub keywords : List String
  pub source_id : String
  pub language_original : Option String
  pub created_at : ℕ
  pub modified_at : Option ℕ
  pub is_read : Bool
  pub source_name : String
  pub source_status : Bool
  pub source_url : String
  pub source_url_rss : String
  pub source_created_at : ℕ
  pub source_modified_at : Option ℕ

pub record FeedArticleParams : Type 0 where
  pub user_id : String
  pub feed_id : String
  pub is_read : Option Bool
  pub period_starting_at : Option ℕ
  pub period_ending_at : Option ℕ

abbrev pub joined_row : ArticlesFeed → Article → Source → FeedArticleRow
joined_row af a s = record {
  id = a.id;
  status = a.status;
  title = a.title;
  content = a.content;
  url_original = a.url_original;
  keywords = a.keywords;
  source_id = a.source_id;
  language_original = a.language_original;
  created_at = a.created_at;
  modified_at = a.modified_at;
  is_read = af.is_read;
  source_name = s.name;
  source_status = s.status;
  source_url = s.url;
  source_url_rss = s.url_rss;
  source_created_at = s.created_at;
  source_modified_at = s.modified_at;
}

abbrev pub has_state : Option Bool → Bool → Bool
has_state none is_read = true
has_state (some true) is_read = is_read
has_state (some false) is_read = not is_read

abbrev pub is_from : Option ℕ → ℕ → Bool
is_from none created_at = true
is_from (some start) created_at = leb start created_at

abbrev pub is_until : Option ℕ → ℕ → Bool
is_until none created_at = true
is_until (some end) created_at = leb created_at end

-- The WHERE clause, with the join of the feed.
abbrev pub is_asked : FeedArticleParams → Db → ArticlesFeed → Article → Bool
is_asked p db af a =
    (exists (is_active_feed af.feed_id p.user_id) db.feeds && str_eq af.feed_id p.feed_id)
    && (has_state p.is_read af.is_read
        && (is_from p.period_starting_at a.created_at && is_until p.period_ending_at a.created_at))

-- The joins of the article and of its source: ids are unique, so there is one row at most.
abbrev pub joined_source :
    FeedArticleParams → Db → ArticlesFeed → Article → Option Source → Option FeedArticleRow
joined_source p db af a none = none
joined_source p db af a (some s) = if is_asked p db af a then some (joined_row af a s) else none

abbrev pub joined_article :
    FeedArticleParams → Db → ArticlesFeed → Option Article → Option FeedArticleRow
joined_article p db af none = none
joined_article p db af (some a) =
    joined_source p db af a (find_first (is_active_source a.source_id) db.sources)

abbrev pub row_of : FeedArticleParams → Db → ArticlesFeed → Option FeedArticleRow
row_of p db af = joined_article p db af (find_first (is_active_article af.article_id) db.articles)

abbrev pub with_row : {A : Type 0} → Option A → List A → List A
with_row none rows = rows
with_row (some row) rows = row ∷ rows

unfoldable pub feed_rows : FeedArticleParams → Db → List ArticlesFeed → List FeedArticleRow
feed_rows p db [] = []
feed_rows p db (af ∷ afs) = with_row (row_of p db af) (feed_rows p db afs)

abbrev pub row_key : FeedArticleRow → Key
row_key r = record { created_at = r.created_at; id = r.id }

unfoldable pub list_articles_by_feed_for_user : FeedArticleParams → ℤ → ℤ → M (List FeedArticleRow)
list_articles_by_feed_for_user p page_limit page_offset =
    read (λ now db.
      windowed page_limit page_offset (sorted row_key (feed_rows p db db.articles_feeds)))

unfoldable pub count_articles_by_feed_for_user : FeedArticleParams → M ℕ
count_articles_by_feed_for_user p = read (λ now db. ok (length (feed_rows p db db.articles_feeds)))
