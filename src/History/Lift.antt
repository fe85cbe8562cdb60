-- ===== src/History/Lift.antt =====
-- An invariant that survives the changes of the tables is kept by the writing steps.
use Prim.Native.Char.{Char}
use news_feed_backend.Prelude.{
  ℕ, String, str_eq, ◌≡◌, ◌⊎◌, refl, ap, sym, ◌∙◌, Bool, true, false, Option, List, ◌∷◌, ltb, leb,
  arith, exists, exists_of_find_first, count_where, Bool-cases, inl, inr,
}
use news_feed_backend.Store.{
  article_source_invalid, article_already_exists, user_already_exists, Feed, Source, User,
  UserPreference, Db, ok, Leads, Keeps-Leads, >>=-Leads, map_err-Leads, read-Leads, exec-Leads,
  query-Leads, pure-Leads, query-Keeps, exec-Keeps, new_uuid-Keeps, pure-Keeps, raise-Leads,
  Leads-from, feed_limit_reached,
}
use news_feed_backend.Queries.Sources.{find_source_by_id, is_active_source, soft_delete_source}
use news_feed_backend.Queries.Articles as ArticleRows
use news_feed_backend.Queries.Articles.{
  CreateArticleParams, UpdateArticleParams, insert_article, create_article, change_article,
  update_article, is_active_article, update_article_content, soft_delete_article,
  soft_delete_articles_by_source_id,
}
use news_feed_backend.Queries.OutboundLinks.{
  retarget_article_outbound_links_by_href, retarget_article_outbound_links_by_source_id,
}
use news_feed_backend.Queries.Feeds.{
  CreateFeedParams, insert_feed, create_feed, is_active_feed_of, count_active_feeds_by_user,
  soft_delete_feed_by_id_and_user, soft_delete_feeds_by_user,
}
use news_feed_backend.Queries.ArticlesFeeds.{mark_article_as_read_for_user}
use news_feed_backend.Queries.RefreshTokens.{
  extend_refresh_token, revoke_refresh_token, revoke_all_refresh_tokens_by_user_id,
}
use news_feed_backend.Queries.Users as UserRows
use news_feed_backend.Queries.Users.{
  CreateUserParams, insert_user, create_user, new_user, update_user_last_login,
  update_user_last_active, soft_delete_user,
}
use news_feed_backend.Queries.UserPreferences as PreferencesRows
use news_feed_backend.Queries.UserPreferences.{
  CreateUserPreferencesParams, insert_preferences, create_user_preferences, change_preferences,
  new_preferences, update_user_preferences, is_active_of, soft_delete_user_preferences,
}
use news_feed_backend.Queries.ControlPanel.{
  update_system_app_status, update_system_last_article_discovery,
}
use news_feed_backend.Controllers.Errors.{when_missing, when_taken}
use news_feed_backend.Controllers.Sources
use news_feed_backend.Controllers.Articles
use news_feed_backend.Controllers.Feeds
use news_feed_backend.Controllers.Users
use news_feed_backend.Controllers.UserPreferences
use news_feed_backend.History.Changes.{
  Survives, links_of_source_out, without_articles_of, without_preferences, without_tokens,
  without_feeds,
}
use news_feed_backend.History.Steps.{Preserves}
use news_feed_backend.History.Statements.{
  no_ok, ok_inj, found, source_inserted, source_updated, article_updated, link_inserted,
  feed_updated, preferences_updated, associated, token_inserted, system_kept,
}

module _ {I : Db → Type 0} (s : Survives I) where
  source_gone : (id : String) → Leads I (λ _. I) (Sources.soft_delete id)
  unfolding Sources.soft_delete soft_delete_source retarget_article_outbound_links_by_source_id
      soft_delete_articles_by_source_id
  source_gone id =
      >>=-Leads I (λ _. After_source) (λ _. I)
        (exec-Leads I After_source _ (λ n db h n' n''. s.source_gone n n' n'' id db h))
        λ _.
          >>=-Leads After_source (λ _. After_links) (λ _. I)
            (exec-Leads After_source After_links _ (λ n' db h n''. h n' n''))
            λ _. exec-Leads After_links I _ (λ n'' db h. h n'')
    where
      After_links : Db → Type 0
      After_links db = (n'' : ℕ) → I (without_articles_of n'' id db)

      After_source : Db → Type 0
      After_source db = (n' n'' : ℕ) → I (without_articles_of n'' id (links_of_source_out n' id db))

  user_gone : (id : String) → Leads I (λ _. I) (Users.soft_delete_user id)
  unfolding Users.soft_delete_user soft_delete_user soft_delete_user_preferences
      revoke_all_refresh_tokens_by_user_id soft_delete_feeds_by_user
  user_gone id =
      >>=-Leads I (λ _. After_user) (λ _. I)
        (exec-Leads I After_user _ (λ n db h n' n'' n'''. s.user_gone n n' n'' n''' id db h))
        λ _.
          >>=-Leads After_user (λ _. After_preferences) (λ _. I)
            (exec-Leads After_user After_preferences _ (λ n' db h n'' n'''. h n' n'' n'''))
            λ _.
              >>=-Leads After_preferences (λ _. After_tokens) (λ _. I)
                (exec-Leads After_preferences After_tokens _ (λ n'' db h n'''. h n'' n'''))
                λ _. exec-Leads After_tokens I _ (λ n''' db h. h n''')
    where
      After_tokens : Db → Type 0
      After_tokens db = (n''' : ℕ) → I (without_feeds n''' id db)

      After_preferences : Db → Type 0
      After_preferences db = (n'' n''' : ℕ) → I (without_feeds n''' id (without_tokens n'' id db))

      After_user : Db → Type 0
      After_user db =
          (n' n'' n''' : ℕ)
          → I (without_feeds n''' id (without_tokens n'' id (without_preferences n' id db)))

  -- The source that the first statement found is there when the second inserts the article.
  article_inserted :
      (p : CreateArticleParams)
      → Leads
          (λ db. (exists (is_active_source p.source_id) db.sources ≡ true) × I db)
          (λ _. I)
          (create_article p)
  unfolding create_article insert_article
  article_inserted p =
      query-Leads _ (λ _. I) _
        λ now db a h e. elim (Bool-cases (exists (ArticleRows.clashes p) db.articles)) [
          | inl clash ↦ rw clash h.1
          | inr free ↦
              elim (Bool-cases (exists (λ (x : Source). str_eq x.id p.source_id) db.sources)) [
                | inl there ↦ rw (free, there) (s.article_added now p db h.0 free h.1)
                | inr missing ↦ rw (free, missing) h.1
              ]
        ]

  feed_inserted :
      (p : CreateFeedParams)
      → Leads
          (λ db. (ltb (count_where (is_active_feed_of p.user_id) db.feeds) 5 ≡ true) × I db)
          (λ _. I)
          (create_feed p)
  unfolding create_feed insert_feed
  feed_inserted p =
      query-Leads _ (λ _. I) _
        λ now db a h e. elim (Bool-cases (exists (λ (f : Feed). str_eq f.id p.id) db.feeds)) [
          | inl clash ↦ rw clash h.1
          | inr free ↦ elim (Bool-cases (exists (λ (u : User). str_eq u.id p.user_id) db.users)) [
            | inl there ↦ rw (free, there) (s.feed_added now p db h.0 free there h.1)
            | inr missing ↦ rw (free, missing) h.1
          ]
        ]

  module _ (lower : Char → Char) where
    article_created :
        (title content url source_id : String) (keywords : List String) (language : Option String)
        → Leads I (λ _. I) (Articles.create lower title content url source_id keywords language)
    unfolding Articles.create find_source_by_id
    article_created title content url source_id keywords language =
        >>=-Leads I (λ _. Ready) (λ _. I)
          (map_err-Leads I (λ _. Ready) (when_missing article_source_invalid)
            (read-Leads I (λ _. Ready) _
              (λ now db x h e. (exists_of_find_first _ _ x (found e), h))))
          λ _.
            >>=-Leads Ready (λ _. Ready) (λ _. I) (Keeps-Leads Ready (new_uuid-Keeps Ready))
              λ id.
                map_err-Leads Ready (λ _. I) (when_taken article_already_exists)
                  (article_inserted _)
      where
        Ready : Db → Type 0
        Ready db = (exists (is_active_source source_id) db.sources ≡ true) × I db

    feed_created :
        (user_id name : String) (keywords : List String)
        → Leads I (λ _. I) (Feeds.create lower user_id name keywords)
    unfolding Feeds.create count_active_feeds_by_user
    feed_created user_id name keywords =
        >>=-Leads I Counted (λ _. I) (read-Leads I Counted _ (λ now db n h e. (counted e, h)))
          λ n. inserted n (leb 5 n) refl
      where
        Counted : ℕ → Db → Type 0
        Counted n db = (count_where (is_active_feed_of user_id) db.feeds ≡ n) × I db

        Room : Db → Type 0
        Room db = (ltb (count_where (is_active_feed_of user_id) db.feeds) 5 ≡ true) × I db

        counted : {m n : ℕ} → ok m ≡ ok n → m ≡ n
        counted e = cc

        room : (n : ℕ) (db : Db) → leb 5 n ≡ false → Counted n db → Room db
        room n db e h = (rw h.0 (ground arith), h.1)

        inserted :
            (n : ℕ) (b : Bool)
            → leb 5 n ≡ b
            → Leads (Counted n) (λ _. I) (Feeds.insert_if lower b user_id name keywords)
        inserted n true e = raise-Leads (Counted n) (λ _. I) feed_limit_reached
        inserted n false e =
            Leads-from (Counted n) (λ _. I) Room (λ db h. room n db e h)
              (>>=-Leads Room (λ _. Room) (λ _. I) (Keeps-Leads Room (new_uuid-Keeps Room))
                λ id. feed_inserted _)

    user_created :
        (google_id email name picture : String)
        → Leads I (λ _. I) (Users.create_user google_id email name picture)
    unfolding Users.create_user create_user insert_user UserPreferences.default_preferences_params
        create_user_preferences insert_preferences
    user_created google_id email name picture =
        >>=-Leads I (λ _. I) (λ _. I) (Keeps-Leads I (new_uuid-Keeps I))
          λ id.
            >>=-Leads I Added (λ _. I)
              (map_err-Leads I Added (when_taken user_already_exists)
                (query-Leads I Added _ (λ now db u h e. added now _ db u h (Bool-cases _) e)))
              λ u.
                >>=-Leads (Added u) Prepared (λ _. I)
                  (>>=-Leads (Added u) (λ _. Added u) Prepared
                    (Keeps-Leads (Added u) (new_uuid-Keeps (Added u)))
                    λ id. pure-Leads (Added u) Prepared _ (λ db h n'. h n' _ refl))
                  λ q.
                    >>=-Leads (Prepared q) (λ _. I) (λ _. I)
                      (query-Leads (Prepared q) (λ _. I) _
                        (λ now db x h e. stored now q db h (Bool-cases _) (Bool-cases _) e))
                      λ _. Keeps-Leads I (pure-Keeps I u)
      where
        Added : User → Db → Type 0
        Added u db =
            (n' : ℕ) (q : CreateUserPreferencesParams)
            → q.user_id ≡ u.id
            → I (record db { user_preferences = new_preferences n' q ∷ db.user_preferences })

        Prepared : CreateUserPreferencesParams → Db → Type 0
        Prepared q db =
            (n' : ℕ)
            → I (record db { user_preferences = new_preferences n' q ∷ db.user_preferences })

        added :
            (now : ℕ) (p : CreateUserParams) (db : Db) (u : User)
            → I db
            → (exists (UserRows.clashes p) db.users ≡ true)
              ⊎ (exists (UserRows.clashes p) db.users ≡ false)
            → (insert_user p now db).0 ≡ ok u
            → Added u (insert_user p now db).1
        added now p db u h (inl clash) e = no_ok (rw clash at e)
        added now p db u h (inr free) e = λ n' q same. rw free (
            s.user_added now n' p q db free
              (same ∙ ap (λ (x : User). x.id) (sym (ok_inj (rw free at e)))) h)

        stored :
            (now : ℕ) (q : CreateUserPreferencesParams) (db : Db) {x : UserPreference}
            → Prepared q db
            → (exists (PreferencesRows.clashes q) db.user_preferences ≡ true)
              ⊎ (exists (PreferencesRows.clashes q) db.user_preferences ≡ false)
            → (exists (λ (u : User). str_eq u.id q.user_id) db.users ≡ true)
              ⊎ (exists (λ (u : User). str_eq u.id q.user_id) db.users ≡ false)
            → (insert_preferences q now db).0 ≡ ok x
            → I (insert_preferences q now db).1
        stored now q db h (inl clash) there e = no_ok (rw clash at e)
        stored now q db h (inr free) (inl there) e = rw (free, there) (h now)
        stored now q db h (inr free) (inr missing) e = no_ok (rw (free, missing) at e)

-- An invariant of the changes is an invariant of the steps.
pub preserves : {I : Db → Type 0} (lower : Char → Char) → Survives I → Preserves lower I
unfolding soft_delete_article update_article_content retarget_article_outbound_links_by_href
    soft_delete_feed_by_id_and_user mark_article_as_read_for_user extend_refresh_token
    revoke_refresh_token revoke_all_refresh_tokens_by_user_id update_user_last_login
    update_user_last_active update_system_app_status update_system_last_article_discovery
preserves {I} lower s = record {
  source_insert = source_inserted s;
  source_update = source_updated s;
  source_removal = source_gone s;
  article_creation = article_created s lower;
  article_update = article_updated s;
  content_update = λ content id. exec-Keeps I _ (λ now db h. s.content_changed now content id db h);
  article_removal = λ id. exec-Keeps I _ (λ now db h. s.article_gone now id db h);
  link_insert = link_inserted s;
  link_retarget =
      λ new_href old_href. exec-Keeps I _ (λ now db h. s.link_changed now new_href old_href db h);
  feed_creation = feed_created s lower;
  feed_update = feed_updated s;
  feed_removal = λ id user_id. exec-Keeps I _ (λ now db h. s.feed_gone now id user_id db h);
  association = associated s;
  reading = λ id user_id. exec-Keeps I _ (λ now db h. s.marked now id user_id db h);
  token_insert = token_inserted s;
  token_extension = λ id at. exec-Keeps I _ (λ now db h. s.token_extended now id at db h);
  token_revocation = λ id. exec-Keeps I _ (λ now db h. s.token_gone now id db h);
  token_revocations = λ id. exec-Keeps I _ (λ now db h. s.tokens_gone now id db h);
  user_creation = user_created s lower;
  user_login = λ id. exec-Keeps I _ (λ now db h. s.user_logged_in now id db h);
  user_activity = λ id. exec-Keeps I _ (λ now db h. s.user_seen now id db h);
  user_removal = user_gone s;
  preferences_update = preferences_updated s;
  status_update = λ active. query-Keeps I _ (λ now db h. system_kept s _ db db.system h);
  watermark_update = λ at. query-Keeps I _ (λ now db h. system_kept s _ db db.system h);
}
