-- ===== src/Controllers/ArticlesFeeds.antt =====
-- services/controllers/articles_feeds.go
use news_feed_backend.Prelude.{
  String, Bool, true, false, List, [], ◌∷◌, Option, none, some, if◌then◌else◌,
}
use news_feed_backend.Store.{ArticlesFeed, M, pure, ◌>>=◌, ◌>>◌, new_uuid}
use news_feed_backend.Queries.ArticlesFeeds.{
  create_article_feed, find_article_feeds_by_article_and_user, mark_article_as_read_for_user,
  count_unread_articles_by_feed_for_user, UnreadRow,
}

unfoldable pub create : String → String → M ArticlesFeed
create article_id feed_id = do id ← new_uuid; create_article_feed id article_id feed_id

unfoldable pub find_by_article_and_user : String → String → M (List ArticlesFeed)
find_by_article_and_user article_id user_id =
    find_article_feeds_by_article_and_user user_id article_id

unfoldable pub count_unread_by_feed_for_user : String → M (List UnreadRow)
count_unread_by_feed_for_user user_id = count_unread_articles_by_feed_for_user user_id

abbrev pub mark_found : String → String → List ArticlesFeed → M Bool
mark_found article_id user_id [] = pure false
mark_found article_id user_id (r ∷ rs) = do
  mark_article_as_read_for_user article_id user_id
  pure true

unfoldable pub mark_as_read : String → String → M Bool
mark_as_read article_id user_id = do
  records ← find_by_article_and_user article_id user_id
  mark_found article_id user_id records

-- The loop of IsReadState: the first unread record decides.
unfoldable pub all_read : List ArticlesFeed → Bool
all_read [] = true
all_read (r ∷ rs) = if r.is_read then all_read rs else false

unfoldable pub is_read_state : List ArticlesFeed → Option Bool
unfolding all_read
is_read_state [] = none
is_read_state (r ∷ rs) = some (all_read (r ∷ rs))
