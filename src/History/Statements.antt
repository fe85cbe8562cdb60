-- ===== src/History/Statements.antt =====
-- An invariant that survives the changes of the tables is kept by single statements.
use news_feed_backend.Prelude.{
  ℕ, String, str_eq, ◌≡◌, ◌&&◌, Option, none, some, List, [], ◌∷◌, arith, find_first, exists,
  Bool-cases, inl, inr,
}
use news_feed_backend.Store.{
  ArticlesFeed, Article, ArticleOutboundLink, Feed, RefreshToken, Source, System, User,
  UserPreference, Db, Error, ok, err, Keeps, Leads, query-Leads, query-Keeps, one,
}
use news_feed_backend.Queries.Sources as SourceRows
use news_feed_backend.Queries.Sources.{
  CreateSourceParams, insert_source, create_source, change_source, update_source, find_source_by_id,
  is_active_source, soft_delete_source,
}
use news_feed_backend.Queries.Articles as ArticleRows
use news_feed_backend.Queries.Articles.{
  CreateArticleParams, UpdateArticleParams, insert_article, create_article, change_article,
  update_article, is_active_article, update_article_content, soft_delete_article,
  soft_delete_articles_by_source_id,
}
use news_feed_backend.Queries.OutboundLinks.{create_article_outbound_link, insert_link}
use news_feed_backend.Queries.Feeds.{
  UpdateFeedParams, change_feed, update_feed_by_id_and_user, is_active_feed,
}
use news_feed_backend.Queries.ArticlesFeeds.{insert_article_feed, create_article_feed}
use news_feed_backend.Queries.RefreshTokens.{insert_token, create_refresh_token}
use news_feed_backend.Queries.UserPreferences.{
  change_preferences, update_user_preferences, is_active_of,
}
use news_feed_backend.Queries.ControlPanel.{change_system}
use news_feed_backend.History.Changes.{Survives}
use news_feed_backend.History.Steps.{HasNoToken}

pub no_ok : {A : Type 0} {B : Type 0} {x : Error} {a : A} → err x ≡ ok a → B
no_ok e = absurd (ground arith)

pub ok_inj : {A : Type 0} {a b : A} → ok a ≡ ok b → a ≡ b
ok_inj e = cc

pub found : {A : Type 0} {o : Option A} {a : A} → one o ≡ ok a → o ≡ some a
found {o = none} e = absurd (ground arith)
found {o = some b} e = cc

module _ {I : Db → Type 0} (s : Survives I) where
  pub source_inserted : (p : CreateSourceParams) → Keeps I (create_source p)
  unfolding create_source insert_source
  source_inserted p = query-Keeps I _ λ now db h.
      elim (Bool-cases (exists (SourceRows.clashes p) db.sources)) [
        | inl clash ↦ rw clash h
        | inr free ↦ rw free (s.source_added now p db free h)
      ]

  pub source_updated : (p : CreateSourceParams) → Keeps I (update_source p)
  unfolding update_source change_source
  source_updated p =
      query-Keeps I _ λ now db h. go now db (find_first (is_active_source p.id) db.sources) h
    where
      go : (now : ℕ) (db : Db) (found : Option Source) → I db → I (change_source p now db found).1
      go now db none h = h
      go now db (some x) h =
          elim (Bool-cases (exists (SourceRows.clashes_on_update p) db.sources)) [
            | inl clash ↦ rw clash h
            | inr free ↦ rw free (s.source_changed now p db free h)
          ]

  pub article_updated : (p : UpdateArticleParams) → Keeps I (update_article p)
  unfolding update_article change_article
  article_updated p =
      query-Keeps I _ λ now db h. go now db (find_first (is_active_article p.id) db.articles) h
    where
      go : (now : ℕ) (db : Db) (found : Option Article) → I db → I (change_article p now db found).1
      go now db none h = h
      go now db (some x) h =
          elim (Bool-cases (exists (ArticleRows.clashes_on_update p) db.articles)) [
            | inl clash ↦ rw clash h
            | inr free ↦ rw free (s.article_changed now p db free h)
          ]

  pub link_inserted :
      (id article_id href : String) → Keeps I (create_article_outbound_link id article_id href)
  unfolding create_article_outbound_link insert_link
  link_inserted id article_id href = query-Keeps I _ λ now db h.
      elim (Bool-cases
        (exists (λ (l : ArticleOutboundLink). str_eq l.id id) db.article_outbound_links)) [
          | inl clash ↦ rw clash h
          | inr free ↦
              elim (Bool-cases (exists (λ (a : Article). str_eq a.id article_id) db.articles)) [
                | inl there ↦ rw (free, there) (s.link_added now id article_id href db there h)
                | inr missing ↦ rw (free, missing) h
              ]
        ]

  pub feed_updated : (p : UpdateFeedParams) → Keeps I (update_feed_by_id_and_user p)
  unfolding update_feed_by_id_and_user change_feed
  feed_updated p =
      query-Keeps I _ λ now db h. go now db (find_first (is_active_feed p.id p.user_id) db.feeds) h
    where
      go : (now : ℕ) (db : Db) (found : Option Feed) → I db → I (change_feed p now db found).1
      go now db none h = h
      go now db (some x) h = s.feed_changed now p db h

  pub preferences_updated :
      (language : Option String) (personality user_id : String)
      → Keeps I (update_user_preferences language personality user_id)
  unfolding update_user_preferences change_preferences
  preferences_updated language personality user_id =
      query-Keeps I _
        λ now db h. go now db (find_first (is_active_of user_id) db.user_preferences) h
    where
      go :
          (now : ℕ) (db : Db) (found : Option UserPreference)
          → I db
          → I (change_preferences language personality user_id now db found).1
      go now db none h = h
      go now db (some x) h = s.preferences_changed now language personality user_id db h

  pub associated :
      (id article_id feed_id : String) → Keeps I (create_article_feed id article_id feed_id)
  unfolding create_article_feed insert_article_feed
  associated id article_id feed_id = query-Keeps I _ λ now db h.
      elim (Bool-cases (exists (λ (af : ArticlesFeed). str_eq af.id id) db.articles_feeds)) [
        | inl clash ↦ rw clash h
        | inr free ↦
            elim (Bool-cases (
              exists (λ (a : Article). str_eq a.id article_id) db.articles
              && exists (λ (f : Feed). str_eq f.id feed_id) db.feeds)) [
                | inl there ↦ rw (free, there) (s.associated now id article_id feed_id db h)
                | inr missing ↦ rw (free, missing) h
              ]
      ]

  pub token_inserted :
      (id user_id : String) (at : ℕ)
      → Leads (λ db. HasNoToken user_id db × I db) (λ _. I) (create_refresh_token id user_id at)
  unfolding create_refresh_token insert_token
  token_inserted id user_id at =
      query-Leads _ (λ _. I) _
        λ now db a h e.
          elim (Bool-cases (exists (λ (t : RefreshToken). str_eq t.id id) db.refresh_tokens)) [
            | inl clash ↦ rw clash h.1
            | inr free ↦ elim (Bool-cases (exists (λ (u : User). str_eq u.id user_id) db.users)) [
              | inl there ↦ rw (free, there) (s.token_added now id user_id at db free h.0 h.1)
              | inr missing ↦ rw (free, missing) h.1
            ]
          ]

  pub system_kept :
      (change : System → System) (db : Db) (ss : List System)
      → I db
      → I (change_system change db ss).1
  unfolding change_system
  system_kept change db [] h = h
  system_kept change db (x ∷ ss) h = s.system_changed _ db h
