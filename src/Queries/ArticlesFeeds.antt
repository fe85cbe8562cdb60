-- ===== src/Queries/ArticlesFeeds.antt =====
-- sqlc/articles_feeds.sql.go. The list of the articles of a feed is in FeedArticles.
use news_feed_backend.Prelude.{
  ℕ, String, str_eq, Bool, false, true, not, ◌&&◌, none, some, List, [], ◌∷◌, ltb, if◌then◌else◌,
  exists, update_where, select, count_where,
}
use news_feed_backend.Store.{
  Article, ArticlesFeed, Feed, Db, Result, ok, err, M, read, query, exec, unique_violation,
  fk_violation,
}
use news_feed_backend.Queries.Articles.{is_active_article}
use news_feed_backend.Queries.Feeds.{is_active_feed, is_active_feed_of}

abbrev pub new_article_feed : ℕ → String → String → String → ArticlesFeed
new_article_feed now id article_id feed_id = record {
  id = id;
  article_id = article_id;
  feed_id = feed_id;
  is_read = false;
  created_at = now;
  modified_at = none;
}

unfoldable pub insert_article_feed : String → String → String → ℕ → Db → Result ArticlesFeed × Db
insert_article_feed id article_id feed_id now db =
    if exists (λ (af : ArticlesFeed). str_eq af.id id) db.articles_feeds
    then (err unique_violation, db)
    else if exists (λ (a : Article). str_eq a.id article_id) db.articles
        && exists (λ (f : Feed). str_eq f.id feed_id) db.feeds
    then (
      ok (new_article_feed now id article_id feed_id),
      record db { articles_feeds = new_article_feed now id article_id feed_id ∷ db.articles_feeds },
    )
    else (err fk_violation, db)

unfoldable pub create_article_feed : String → String → String → M ArticlesFeed
unfolding insert_article_feed
create_article_feed id article_id feed_id = query (insert_article_feed id article_id feed_id)

-- The row joins an active feed of the user and an active article.
abbrev pub is_visible_to : String → Db → ArticlesFeed → Bool
is_visible_to user_id db af =
    exists (is_active_feed af.feed_id user_id) db.feeds
    && exists (is_active_article af.article_id) db.articles

abbrev pub is_of_article_and_user : String → String → Db → ArticlesFeed → Bool
is_of_article_and_user article_id user_id db af =
    str_eq af.article_id article_id && is_visible_to user_id db af

unfoldable pub find_article_feeds_by_article_and_user : String → String → M (List ArticlesFeed)
find_article_feeds_by_article_and_user user_id article_id =
    read (λ now db. ok (select (is_of_article_and_user article_id user_id db) db.articles_feeds))

abbrev pub read_at : ℕ → ArticlesFeed → ArticlesFeed
read_at now af = record af { is_read = true; modified_at = some now }

abbrev pub is_unread_of : String → String → Db → ArticlesFeed → Bool
is_unread_of article_id user_id db af =
    str_eq af.article_id article_id
    && (not af.is_read
        && (exists (is_active_article af.article_id) db.articles
            && exists (is_active_feed af.feed_id user_id) db.feeds))

unfoldable pub mark_article_as_read_for_user : String → String → M (Unit {0})
mark_article_as_read_for_user article_id user_id = exec (λ now db. record db {
  articles_feeds =
      update_where (is_unread_of article_id user_id db) (read_at now) db.articles_feeds;
})

pub record UnreadRow : Type 0 where
  pub feed_id : String
  pub unread_count : ℕ

abbrev pub is_unread_in : Db → Feed → ArticlesFeed → Bool
is_unread_in db f af =
    str_eq af.feed_id f.id
    && (not af.is_read && exists (is_active_article af.article_id) db.articles)

-- A feed of the user gives a row if it has an unread article.
unfoldable pub unread_rows : String → Db → List Feed → List UnreadRow
unread_rows user_id db [] = []
unread_rows user_id db (f ∷ fs) =
    let rest = unread_rows user_id db fs in
    let count = count_where (is_unread_in db f) db.articles_feeds in
    if is_active_feed_of user_id f && ltb 0 count
    then record { feed_id = f.id; unread_count = count } ∷ rest
    else rest

unfoldable pub count_unread_articles_by_feed_for_user : String → M (List UnreadRow)
unfolding unread_rows
count_unread_articles_by_feed_for_user user_id =
    read (λ now db. ok (unread_rows user_id db db.feeds))
