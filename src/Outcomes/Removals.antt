-- ===== src/Outcomes/Removals.antt =====
-- The removals that take other rows with them: SoftDeleteUser of services/controllers/users.go,
-- SoftDelete of sources.go, and DeleteArticle of services/endpoints/v1/articles/delete.go.
use news_feed_backend.Prelude.{
  ℕ, String, str_eq, ◌≡◌, refl, false, none, some, [], exists, find_first, exists-update_where_all,
  find_first-update_where-none, arith,
}
use news_feed_backend.Store.{
  Article, Source, Db, ok, with_transaction, begun, finish, committed, query, read, exec, answered,
}
use news_feed_backend.Queries.Sources.{
  is_active_source, find_source_by_id, soft_delete_source, is_unremoved_source, removed_source,
}
use news_feed_backend.Queries.Articles.{
  is_active_article, find_article_by_id, soft_delete_article, is_unremoved_article, removed_article,
  is_unremoved_of_source, soft_delete_articles_by_source_id,
}
use news_feed_backend.Queries.OutboundLinks.{
  points_to, repointed, retarget_article_outbound_links_by_href,
  retarget_article_outbound_links_by_source_id,
}
use news_feed_backend.Queries.Users.{is_unremoved_user, soft_delete_user}
use news_feed_backend.Queries.UserPreferences.{is_unremoved_of, soft_delete_user_preferences}
use news_feed_backend.Queries.RefreshTokens.{
  is_unremoved_token_of, revoke_all_refresh_tokens_by_user_id,
}
use news_feed_backend.Queries.Feeds.{is_unremoved_feed_of, soft_delete_feeds_by_user}
use news_feed_backend.Controllers.Users
use news_feed_backend.Controllers.Articles
use news_feed_backend.Controllers.Sources
use news_feed_backend.Controllers.OutboundLinks
use news_feed_backend.Outbound.Hrefs.{internal_href}
use news_feed_backend.Endpoints.Reply.{done, guarded, respond}
use news_feed_backend.Endpoints.Articles.{delete_article, remove_article}
use news_feed_backend.Endpoints.Sources.{delete_source, remove_source}
use news_feed_backend.Outcomes.Tokens.{calm}

-- Nothing of the user is left that is not removed.
pub record HasNothingOf (id : String) (db : Db) : Type 0 where
  pub user : exists (is_unremoved_user id) db.users ≡ false
  pub preferences : exists (is_unremoved_of id) db.user_preferences ≡ false
  pub tokens : exists (is_unremoved_token_of id) db.refresh_tokens ≡ false
  pub feeds : exists (is_unremoved_feed_of id) db.feeds ≡ false

-- When no statement fails, the removal of a user succeeds, and leaves neither the user nor their
-- preferences, sessions or feeds.
pub soft_delete_user_lem :
    (id : String) (db : Db) (now : ℕ)
    → (let r = with_transaction (Users.soft_delete_user id) (calm db now []) in
        (r.0 ≡ ok tt) × HasNothingOf id r.1.db)
unfolding with_transaction begun finish committed Users.soft_delete_user soft_delete_user
    soft_delete_user_preferences revoke_all_refresh_tokens_by_user_id soft_delete_feeds_by_user
    query exec answered
soft_delete_user_lem id db now = (
  refl,
  record {
    user = exists-update_where_all _ _ (λ u. ground arith) db.users;
    preferences = exists-update_where_all _ _ (λ p. ground arith) db.user_preferences;
    tokens = exists-update_where_all _ _ (λ t. ground arith) db.refresh_tokens;
    feeds = exists-update_where_all _ _ (λ f. ground arith) db.feeds;
  },
)

-- When no statement fails, DELETE of an active article answers 204. Then the article is no longer
-- found, and no link points to its page any more, provided that its own URL is not that page.
pub delete_article_lem :
    (id : String) (a : Article) (db : Db) (now : ℕ)
    → str_eq id "" ≡ false
    → find_first (is_active_article id) db.articles ≡ some a
    → str_eq a.url_original (internal_href id) ≡ false
    → (let r = delete_article id (calm db now []) in
        (r.0 ≡ done 204 tt)
        × ((find_first (is_active_article id) r.1.db.articles ≡ none)
            × (exists (points_to (internal_href id)) r.1.db.article_outbound_links ≡ false)))
unfolding delete_article guarded respond with_transaction begun finish committed remove_article
    Articles.find_by_id find_article_by_id OutboundLinks.retarget
    retarget_article_outbound_links_by_href Articles.soft_delete soft_delete_article query read exec
    answered
delete_article_lem id a db now named found outside =
    rw (named, found)
      (
        refl,
        (
          find_first-update_where-none (is_active_article id) (is_unremoved_article id)
              (removed_article now) (λ x hit. ground arith) (λ x miss. ground arith) db.articles,
          exists-update_where_all (points_to (internal_href id)) (repointed now a.url_original)
              (λ l. outside) db.article_outbound_links,
        ),
      )

-- When no statement fails, DELETE of an active source answers 204, and then neither the source nor
-- any article of it is found.
pub delete_source_lem :
    (id : String) (x : Source) (db : Db) (now : ℕ)
    → str_eq id "" ≡ false
    → find_first (is_active_source id) db.sources ≡ some x
    → (let r = delete_source id (calm db now []) in
        (r.0 ≡ done 204 tt)
        × ((find_first (is_active_source id) r.1.db.sources ≡ none)
            × (exists (is_unremoved_of_source id) r.1.db.articles ≡ false)))
unfolding delete_source guarded respond with_transaction begun finish committed remove_source
    Sources.find_by_id find_source_by_id Sources.soft_delete soft_delete_source
    retarget_article_outbound_links_by_source_id soft_delete_articles_by_source_id query read exec
    answered
delete_source_lem id x db now named found =
    rw (named, found)
      (
        refl,
        (
          find_first-update_where-none (is_active_source id) (is_unremoved_source id)
              (removed_source now) (λ s hit. ground arith) (λ s miss. ground arith) db.sources,
          exists-update_where_all (is_unremoved_of_source id) (removed_article now)
              (λ a. ground arith) db.articles,
        ),
      )
