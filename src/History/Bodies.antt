-- ===== src/History/Bodies.antt =====
-- The bodies of the transactions keep what the writing steps keep.
use Prim.Native.Char.{Char}
use news_feed_backend.Prelude.{
  ℕ, String, Bool, true, false, List, [], ◌∷◌, if◌then◌else◌, ltb, arith, exists-update_where_all,
}
use news_feed_backend.Store.{
  M, Keeps-both, exec-Keeps, exec-Leads, Db, Result, World, ok, err, Keeps, Leads, Keeps-Leads,
  >>=-Keeps, >>=-Leads, map_err-Keeps, read-Keeps, pure-Keeps, raise-Keeps, new_uuid-Keeps,
  attempt-Keeps, pure, raise,
}
use news_feed_backend.Store.{ArticlesFeed, RefreshToken, User, now_is-Keeps, refresh_token_expired}
use news_feed_backend.Queries.Sources.{find_source_by_id}
use news_feed_backend.Queries.Articles.{find_article_by_id}
use news_feed_backend.Queries.ArticlesFeeds.{find_article_feeds_by_article_and_user}
use news_feed_backend.Queries.Feeds.{find_feed_by_id_and_user}
use news_feed_backend.Queries.Users.{
  update_user_last_login, update_user_last_active, find_user_by_id, find_user_by_google_id,
}
use news_feed_backend.Queries.UserPreferences.{find_user_preferences_by_user_id}
use news_feed_backend.Queries.RefreshTokens.{
  find_refresh_token_by_id, revoke_all_refresh_tokens_by_user_id, is_unremoved_token_of, revoked,
}
use news_feed_backend.Endpoints.Articles.{mark_article, remove_article}
use news_feed_backend.Endpoints.Sources.{remove_source}
use news_feed_backend.Endpoints.Feeds.{remove_feed}
use news_feed_backend.Endpoints.Settings.{PreferencesRequest, save_preferences}
use news_feed_backend.Controllers.Auth
use news_feed_backend.Controllers.Auth.{GoogleUserInfo, Session, Claims}
use news_feed_backend.Controllers.Users
use news_feed_backend.Controllers.Sources
use news_feed_backend.Controllers.Articles
use news_feed_backend.Controllers.Feeds
use news_feed_backend.Controllers.ArticlesFeeds
use news_feed_backend.Controllers.OutboundLinks
use news_feed_backend.Controllers.RefreshTokens
use news_feed_backend.Controllers.UserPreferences
use news_feed_backend.History.Steps.{Preserves, HasNoToken}

-- What only reads keeps everything.
module _ (I : Db → Type 0) where
  article_found : (id : String) → Keeps I (Articles.find_by_id id)
  unfolding Articles.find_by_id find_article_by_id
  article_found id = map_err-Keeps I _ (read-Keeps I _)

  source_found : (id : String) → Keeps I (Sources.find_by_id id)
  unfolding Sources.find_by_id find_source_by_id
  source_found id = map_err-Keeps I _ (read-Keeps I _)

  feed_found : (id user_id : String) → Keeps I (Feeds.find_by_id id user_id)
  unfolding Feeds.find_by_id find_feed_by_id_and_user
  feed_found id user_id = map_err-Keeps I _ (read-Keeps I _)

  user_found : (id : String) → Keeps I (Users.find_user_by_id id)
  unfolding Users.find_user_by_id find_user_by_id
  user_found id = map_err-Keeps I _ (read-Keeps I _)

  google_user_found : (id : String) → Keeps I (Users.find_user_by_google_id id)
  unfolding Users.find_user_by_google_id find_user_by_google_id
  google_user_found id = map_err-Keeps I _ (read-Keeps I _)

  preferences_found : (id : String) → Keeps I (UserPreferences.find_by_user_id id)
  unfolding UserPreferences.find_by_user_id find_user_preferences_by_user_id
  preferences_found id = map_err-Keeps I _ (read-Keeps I _)

  token_found : (id : String) → Keeps I (RefreshTokens.find_by_id id)
  unfolding RefreshTokens.find_by_id find_refresh_token_by_id
  token_found id =
      >>=-Keeps I (map_err-Keeps I _ (read-Keeps I _))
        λ t. >>=-Keeps I (now_is-Keeps I) λ now. unless_expired-Keeps t now
    where
      unless_expired-Keeps :
          (t : RefreshToken) (now : ℕ) → Keeps I (RefreshTokens.unless_expired t now)
      unless_expired-Keeps t now = record { at = λ w h. go (ltb t.expires_at now) w h }
        where
          go :
              (b : Bool) (w : World)
              → I w.db
              → I ((if b then raise refresh_token_expired else pure t) w).1.db
          go true w h = h
          go false w h = h

module _ (user_id id : String) where
  tokens_untouched_by_login : Keeps (HasNoToken user_id) (update_user_last_login id)
  unfolding update_user_last_login
  tokens_untouched_by_login = exec-Keeps (HasNoToken user_id) _ (λ now db h. h)

  tokens_untouched_by_activity : Keeps (HasNoToken user_id) (update_user_last_active id)
  unfolding update_user_last_active
  tokens_untouched_by_activity = exec-Keeps (HasNoToken user_id) _ (λ now db h. h)

module _ {lower : Char → Char} {I : Db → Type 0} (s : Preserves lower I) where
  then_mark :
      (id user_id : String) (rs : List ArticlesFeed)
      → Keeps I (ArticlesFeeds.mark_found id user_id rs)
  then_mark id user_id [] = pure-Keeps I false
  then_mark id user_id (r ∷ rs) = >>=-Keeps I (s.reading id user_id) λ _. pure-Keeps I true

  pub marked_read : (id user_id : String) → Keeps I (mark_article id user_id)
  unfolding mark_article ArticlesFeeds.mark_as_read ArticlesFeeds.find_by_article_and_user
      find_article_feeds_by_article_and_user
  marked_read id user_id =
      >>=-Keeps I (article_found I id)
        λ _. >>=-Keeps I (read-Keeps I _) λ rs. then_mark id user_id rs

  pub article_removed : (id : String) → Keeps I (remove_article id)
  unfolding remove_article OutboundLinks.retarget Articles.soft_delete
  article_removed id =
      >>=-Keeps I (article_found I id)
        λ a. >>=-Keeps I (s.link_retarget _ _) λ _. s.article_removal id

  pub source_removed : (id : String) → Leads I (λ _. I) (remove_source id)
  unfolding remove_source
  source_removed id =
      >>=-Leads I (λ _. I) (λ _. I) (Keeps-Leads I (source_found I id)) λ _. s.source_removal id

  pub feed_removed : (id user_id : String) → Keeps I (remove_feed id user_id)
  unfolding remove_feed Feeds.soft_delete
  feed_removed id user_id = >>=-Keeps I (feed_found I id user_id) λ _. s.feed_removal id user_id

  pub source_created : (name url url_rss : String) → Keeps I (Sources.create name url url_rss)
  unfolding Sources.create
  source_created name url url_rss =
      >>=-Keeps I (new_uuid-Keeps I) λ id. map_err-Keeps I _ (s.source_insert _)

  user_found_or_created : (info : GoogleUserInfo) → Leads I (λ _. I) (Auth.find_or_create_user info)
  unfolding Auth.find_or_create_user
  user_found_or_created info =
      >>=-Leads I (λ _. I) (λ _. I) (Keeps-Leads I (attempt-Keeps I (google_user_found I info.id)))
        λ r. creation r
    where
      creation : (r : Result User) → Leads I (λ _. I) (Auth.or_create info r)
      creation (ok u) = Keeps-Leads I (pure-Keeps I u)
      creation (err e) = go (Auth.is_user_not_found e)
        where
          go :
              (b : Bool)
              → Leads I
                  (λ _. I)
                  (if b
                    then Users.create_user info.id info.email info.name info.picture
                    else raise e)
          go true = s.user_creation _ _ _ _
          go false = Keeps-Leads I (raise-Keeps I e)

  abbrev Clear : String → Db → Type 0
  Clear user_id db = HasNoToken user_id db × I db

  tokens_cleared : (id : String) → Leads I (λ _. Clear id) (revoke_all_refresh_tokens_by_user_id id)
  unfolding revoke_all_refresh_tokens_by_user_id
  tokens_cleared id = record {
    at = λ w h a e. (
      (exec-Leads I (HasNoToken id) _ (λ now db k.
            exists-update_where_all (is_unremoved_token_of id) (revoked now) (λ t. ground arith)
              db.refresh_tokens)).at
          w h a e,
      (s.token_revocations id).at w h,
    );
  }

  Clear-kept :
      {A : Type 0} {m : M A} (id : String)
      → Keeps (HasNoToken id) m
      → Keeps I m
      → Leads (Clear id) (λ _. Clear id) m
  Clear-kept id j k = Keeps-Leads (Clear id) (Keeps-both (HasNoToken id) I j k)

  pub session_opened :
      (expiry : ℕ) (info : GoogleUserInfo) → Leads I (λ _. I) (Auth.open_session expiry info)
  unfolding Auth.open_session RefreshTokens.revoke_all RefreshTokens.create
      Users.update_user_last_login Users.update_user_last_active
  session_opened expiry info =
      >>=-Leads I (λ _. I) (λ _. I) (user_found_or_created info)
        λ u.
          >>=-Leads I (λ _. Clear u.id) (λ _. I) (tokens_cleared u.id)
            λ _.
              >>=-Leads (Clear u.id) (λ _. Clear u.id) (λ _. I)
                (Clear-kept u.id (tokens_untouched_by_login u.id u.id) (s.user_login _))
                λ _.
                  >>=-Leads (Clear u.id) (λ _. Clear u.id) (λ _. I)
                    (Clear-kept u.id (tokens_untouched_by_activity u.id u.id) (s.user_activity _))
                    λ _.
                      >>=-Leads (Clear u.id) (λ _. Clear u.id) (λ _. I)
                        (Keeps-Leads (Clear u.id) (preferences_found (Clear u.id) _))
                        λ p.
                          >>=-Leads (Clear u.id) (λ _. I) (λ _. I)
                            (>>=-Leads (Clear u.id) (λ _. Clear u.id) (λ _. I)
                              (Keeps-Leads (Clear u.id) (new_uuid-Keeps (Clear u.id)))
                              λ id.
                                >>=-Leads (Clear u.id) (λ _. Clear u.id) (λ _. I)
                                  (Keeps-Leads (Clear u.id) (now_is-Keeps (Clear u.id)))
                                  λ now. s.token_insert _ _ _)
                            λ t. Keeps-Leads I (pure-Keeps I _)

  pub session_renewed : (expiry : ℕ) (id : String) → Keeps I (Auth.renew_session expiry id)
  unfolding Auth.renew_session RefreshTokens.extend Users.update_user_last_active
  session_renewed expiry id = >>=-Keeps I (token_found I id) λ t. >>=-Keeps I (user_found I _) λ u.
      >>=-Keeps I (preferences_found I _) λ p. >>=-Keeps I (s.user_activity _) λ _.
        >>=-Keeps I (>>=-Keeps I (now_is-Keeps I) λ now. s.token_extension _ _) λ _. pure-Keeps I _

  pub preferences_saved :
      (lifetime : ℕ) (claims : Claims) (r : PreferencesRequest)
      → Keeps I (save_preferences lifetime claims r)
  unfolding save_preferences Auth.regenerate_from_claims UserPreferences.update
  preferences_saved lifetime claims r = >>=-Keeps I (s.preferences_update _ _ _) λ p.
      >>=-Keeps I
        (>>=-Keeps I (user_found I _) λ u. >>=-Keeps I (now_is-Keeps I) λ now. pure-Keeps I _)
        λ t. pure-Keeps I _
