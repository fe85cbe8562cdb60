-- ===== src/Reading/ReadState.antt =====
-- MarkAsRead and GetArticle of services/endpoints/v1/articles, one after the other.
use news_feed_backend.Prelude.{
  ℕ, String, str_eq, ◌≡◌, refl, Bool, true, false, Option, some, none, List, [], ◌∷◌, select,
  exists, update_where, find_first, Bool-cases, inl, inr, if◌then◌else◌, arith,
}
use news_feed_backend.Store.{
  Article, ArticlesFeed, Db, with_transaction, begun, finish, committed, query, read, exec,
  answered,
}
use news_feed_backend.Queries.Articles.{is_active_article, find_article_by_id}
use news_feed_backend.Queries.OutboundLinks.{list_article_outbound_links_by_article_ids}
use news_feed_backend.Queries.ArticlesFeeds.{
  is_of_article_and_user, is_unread_of, read_at, find_article_feeds_by_article_and_user,
  mark_article_as_read_for_user,
}
use news_feed_backend.Controllers.Articles
use news_feed_backend.Controllers.ArticlesFeeds
use news_feed_backend.Controllers.ArticlesFeeds.{all_read, is_read_state}
use news_feed_backend.Controllers.OutboundLinks.{list_by_article_ids}
use news_feed_backend.Outbound.Anchors.{Nodes}
use news_feed_backend.Endpoints.Reply.{Reply, done, failed, respond, guarded}
use news_feed_backend.Endpoints.Articles.{mark_as_read, mark_article}
use news_feed_backend.Outcomes.Tokens.{calm}
use news_feed_backend.Reading.Responses.{ArticleResponse}
use news_feed_backend.Reading.Lookups.{get_article, find_article}

-- The status, and the read state that a document shows.
abbrev pub status_of : {A : Type 0} → Reply A → ℕ
status_of (done status a) = status
status_of (failed status) = status

abbrev pub state_of : Reply ArticleResponse → Option (Option Bool)
state_of (done status doc) = some doc.is_read
state_of (failed status) = none

module _ (db : Db) (id user_id : String) (now : ℕ) where
  abbrev is_his : ArticlesFeed → Bool
  is_his = is_of_article_and_user id user_id db

  abbrev marked_rows : List ArticlesFeed → List ArticlesFeed
  marked_rows afs = update_where (is_unread_of id user_id db) (read_at now) afs

  all_read_after : (afs : List ArticlesFeed) → all_read (select is_his (marked_rows afs)) ≡ true
  unfolding select update_where all_read
  all_read_after [] = refl
  all_read_after (af ∷ afs) = ground (arith, all_read_after afs)

  state_after :
      (afs : List ArticlesFeed)
      → exists is_his afs ≡ true
      → is_read_state (select is_his (marked_rows afs)) ≡ some true
  unfolding select update_where exists is_read_state all_read
  state_after [] e = absurd (ground arith)
  state_after (af ∷ afs) e = ground (arith, state_after afs, all_read_after afs)

  none_selected : (afs : List ArticlesFeed) → exists is_his afs ≡ false → select is_his afs ≡ []
  unfolding select exists
  none_selected [] e = refl
  none_selected (af ∷ afs) e = ground (arith, none_selected afs)

  some_selected :
      (afs : List ArticlesFeed)
      → exists is_his afs ≡ true
      → (r : ArticlesFeed) × ((rs : List ArticlesFeed) × (select is_his afs ≡ r ∷ rs))
  unfolding select exists
  some_selected [] e = absurd (ground arith)
  some_selected (af ∷ afs) e = elim (Bool-cases (is_his af)) [
    | inl hit ↦ (af, (select is_his afs, rw hit refl))
    | inr miss ↦ rw miss (some_selected afs (rw miss at e))
  ]

  module _ (parse : String → Option Nodes) (render : Nodes → Option String) (client_url : String)
      (article : Article) (named : str_eq id "" ≡ false)
      (there : find_first (is_active_article id) db.articles ≡ some article) where
    -- While no statement fails, MarkAsRead of an active article answers 200 if a feed of the user
    -- has the article, and GetArticle shows it as read afterwards; it answers 204 if none has it,
    -- and GetArticle shows no state.
    pub get_article-mark_as_read :
        (let reply = mark_as_read id user_id (calm db now []) in
          let shown = (get_article parse render client_url user_id id reply.1).0 in
          if exists is_his db.articles_feeds
          then (status_of reply.0 ≡ 200) × (state_of shown ≡ some (some true))
          else (status_of reply.0 ≡ 204) × (state_of shown ≡ some none))
    unfolding mark_as_read mark_article get_article find_article guarded respond with_transaction
        begun finish committed Articles.find_by_id find_article_by_id ArticlesFeeds.mark_as_read
        ArticlesFeeds.find_by_article_and_user find_article_feeds_by_article_and_user
        mark_article_as_read_for_user list_by_article_ids list_article_outbound_links_by_article_ids
        query read exec answered is_read_state
    get_article-mark_as_read = elim (Bool-cases (exists is_his db.articles_feeds)) [
      | inl his ↦
          let rows = some_selected db.articles_feeds his in
          let state = state_after db.articles_feeds his in
          rw (his, there, rows.1.1, named, there, state) (refl, refl)
      | inr none_his ↦
          let rows = none_selected db.articles_feeds none_his in
          rw (none_his, there, rows, named, there) (refl, rw rows refl)
    ]
