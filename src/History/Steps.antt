-- ===== src/History/Steps.antt =====
-- What a history keeps: an invariant that each writing step keeps, some of them only as a whole.
use Prim.Native.Char.{Char}
use news_feed_backend.Prelude.{ℕ, String, ◌≡◌, Bool, false, Option, List, exists}
use news_feed_backend.Store.{Db, Keeps, Leads}
use news_feed_backend.Queries.Sources.{CreateSourceParams, create_source, update_source}
use news_feed_backend.Queries.Articles.{
  UpdateArticleParams, update_article, update_article_content, soft_delete_article,
}
use news_feed_backend.Queries.OutboundLinks.{
  create_article_outbound_link, retarget_article_outbound_links_by_href,
}
use news_feed_backend.Queries.Feeds.{
  UpdateFeedParams, update_feed_by_id_and_user, soft_delete_feed_by_id_and_user,
}
use news_feed_backend.Queries.ArticlesFeeds.{create_article_feed, mark_article_as_read_for_user}
use news_feed_backend.Queries.RefreshTokens.{
  create_refresh_token, extend_refresh_token, revoke_refresh_token,
  revoke_all_refresh_tokens_by_user_id, is_unremoved_token_of,
}
use news_feed_backend.Queries.Users.{update_user_last_active, update_user_last_login}
use news_feed_backend.Queries.UserPreferences.{update_user_preferences}
use news_feed_backend.Queries.ControlPanel.{
  update_system_app_status, update_system_last_article_discovery,
}
use news_feed_backend.Controllers.Sources
use news_feed_backend.Controllers.Articles
use news_feed_backend.Controllers.Feeds
use news_feed_backend.Controllers.Users

-- All the tokens of the user are revoked.
abbrev pub HasNoToken : String → Db → Type 0
HasNoToken user_id db = exists (is_unremoved_token_of user_id) db.refresh_tokens ≡ false

-- The writing steps. Those that stand for several statements keep the invariant when they succeed;
-- when they fail, their transaction is rolled back.
pub record Preserves (lower : Char → Char) (I : Db → Type 0) : Type 0 where
  pub source_insert : (p : CreateSourceParams) → Keeps I (create_source p)
  pub source_update : (p : CreateSourceParams) → Keeps I (update_source p)
  pub source_removal : (id : String) → Leads I (λ _. I) (Sources.soft_delete id)
  pub article_creation :
      (title content url source_id : String) (keywords : List String) (language : Option String)
      → Leads I (λ _. I) (Articles.create lower title content url source_id keywords language)
  pub article_update : (p : UpdateArticleParams) → Keeps I (update_article p)
  pub content_update : (content id : String) → Keeps I (update_article_content content id)
  pub article_removal : (id : String) → Keeps I (soft_delete_article id)
  pub link_insert :
      (id article_id href : String) → Keeps I (create_article_outbound_link id article_id href)
  pub link_retarget :
      (new_href old_href : String)
      → Keeps I (retarget_article_outbound_links_by_href new_href old_href)
  pub feed_creation :
      (user_id name : String) (keywords : List String)
      → Leads I (λ _. I) (Feeds.create lower user_id name keywords)
  pub feed_update : (p : UpdateFeedParams) → Keeps I (update_feed_by_id_and_user p)
  pub feed_removal : (id user_id : String) → Keeps I (soft_delete_feed_by_id_and_user id user_id)
  pub association :
      (id article_id feed_id : String) → Keeps I (create_article_feed id article_id feed_id)
  pub reading :
      (article_id user_id : String) → Keeps I (mark_article_as_read_for_user article_id user_id)
  pub token_insert :
      (id user_id : String) (at : ℕ)
      → Leads (λ db. HasNoToken user_id db × I db) (λ _. I) (create_refresh_token id user_id at)
  pub token_extension : (id : String) (at : ℕ) → Keeps I (extend_refresh_token id at)
  pub token_revocation : (id : String) → Keeps I (revoke_refresh_token id)
  pub token_revocations :
      (user_id : String) → Keeps I (revoke_all_refresh_tokens_by_user_id user_id)
  pub user_creation :
      (google_id email name picture : String)
      → Leads I (λ _. I) (Users.create_user google_id email name picture)
  pub user_login : (id : String) → Keeps I (update_user_last_login id)
  pub user_activity : (id : String) → Keeps I (update_user_last_active id)
  pub user_removal : (id : String) → Leads I (λ _. I) (Users.soft_delete_user id)
  pub preferences_update :
      (language : Option String) (personality user_id : String)
      → Keeps I (update_user_preferences language personality user_id)
  pub status_update : (active : Bool) → Keeps I (update_system_app_status active)
  pub watermark_update : (at : Option ℕ) → Keeps I (update_system_last_article_discovery at)
