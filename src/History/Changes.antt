-- ===== src/History/Changes.antt =====
-- The changes that the writing steps make to the tables, each as a function of the database.
-- An invariant is shown to survive these changes, and no more.

use news_feed_backend.Prelude.{
  ℕ, String, str_eq, ◌≡◌, true, false, Option, List, ◌∷◌, ltb, find_first, exists, count_where,
  update_where,
}
use news_feed_backend.Store.{Article, Feed, User, System, Db}
use news_feed_backend.Queries.Sources as SourceRows
use news_feed_backend.Queries.Sources.{
  CreateSourceParams, is_active_source, new_source, updated_source, is_unremoved_source,
  removed_source,
}
use news_feed_backend.Queries.Articles as ArticleRows
use news_feed_backend.Queries.Articles.{
  CreateArticleParams, UpdateArticleParams, is_active_article, new_article, updated_article,
  with_content, is_unremoved_article, is_unremoved_of_source, removed_article,
}
use news_feed_backend.Queries.OutboundLinks.{new_link, points_to, repointed, repointed_to, joins}
use news_feed_backend.Store.{ArticleOutboundLink, RefreshToken}
use news_feed_backend.Queries.Feeds.{
  CreateFeedParams, UpdateFeedParams, is_active_feed_of, is_active_feed, new_feed, updated_feed,
  is_unremoved_feed, is_unremoved_feed_of, removed_feed,
}
use news_feed_backend.Queries.ArticlesFeeds.{new_article_feed, is_unread_of, read_at}
use news_feed_backend.Queries.RefreshTokens.{
  new_token, is_active_token, extended, is_unremoved_token, is_unremoved_token_of, revoked,
}
use news_feed_backend.Queries.Users as UserRows
use news_feed_backend.Queries.Users.{
  CreateUserParams, new_user, is_active_user, active_at, logged_in_at, is_unremoved_user,
  removed_user,
}
use news_feed_backend.Queries.UserPreferences.{
  CreateUserPreferencesParams, new_preferences, is_active_of, updated_preferences, is_unremoved_of,
  removed_preferences,
}
use news_feed_backend.Outbound.Hrefs.{internal_href_prefix}

abbrev pub without_source : ℕ → String → Db → Db
without_source now id db = record db {
  sources = update_where (is_unremoved_source id) (removed_source now) db.sources;
}

abbrev pub links_of_source_out : ℕ → String → Db → Db
links_of_source_out now id db = record db {
  article_outbound_links =
      update_where
        (λ (l : ArticleOutboundLink). exists (joins id internal_href_prefix l) db.articles)
        (λ (l : ArticleOutboundLink).
          repointed_to now (find_first (joins id internal_href_prefix l) db.articles) l)
        db.article_outbound_links;
}

abbrev pub without_articles_of : ℕ → String → Db → Db
without_articles_of now id db = record db {
  articles = update_where (is_unremoved_of_source id) (removed_article now) db.articles;
}

abbrev pub without_user : ℕ → String → Db → Db
without_user now id db = record db {
  users = update_where (is_unremoved_user id) (removed_user now) db.users;
}

abbrev pub without_preferences : ℕ → String → Db → Db
without_preferences now id db = record db {
  user_preferences =
      update_where (is_unremoved_of id) (removed_preferences now) db.user_preferences;
}

abbrev pub without_tokens : ℕ → String → Db → Db
without_tokens now id db = record db {
  refresh_tokens = update_where (is_unremoved_token_of id) (revoked now) db.refresh_tokens;
}

abbrev pub without_feeds : ℕ → String → Db → Db
without_feeds now id db = record db {
  feeds = update_where (is_unremoved_feed_of id) (removed_feed now) db.feeds;
}

-- What a statement checks before it changes a table is a premise of its change.
pub record Survives (I : Db → Type 0) : Type 0 where
  pub source_added :
      (now : ℕ) (p : CreateSourceParams) (db : Db)
      → exists (SourceRows.clashes p) db.sources ≡ false
      → I db
      → I (record db { sources = new_source now p ∷ db.sources })
  pub source_changed :
      (now : ℕ) (p : CreateSourceParams) (db : Db)
      → exists (SourceRows.clashes_on_update p) db.sources ≡ false
      → I db
      → I (record db {
        sources = update_where (is_active_source p.id) (updated_source now p) db.sources;
      })
  pub source_gone :
      (n n' n'' : ℕ) (id : String) (db : Db)
      → I db
      → I (without_articles_of n'' id (links_of_source_out n' id (without_source n id db)))
  pub article_added :
      (now : ℕ) (p : CreateArticleParams) (db : Db)
      → exists (is_active_source p.source_id) db.sources ≡ true
      → exists (ArticleRows.clashes p) db.articles ≡ false
      → I db
      → I (record db { articles = new_article now p ∷ db.articles })
  pub article_changed :
      (now : ℕ) (p : UpdateArticleParams) (db : Db)
      → exists (ArticleRows.clashes_on_update p) db.articles ≡ false
      → I db
      → I (record db {
        articles = update_where (is_active_article p.id) (updated_article now p) db.articles;
      })
  pub content_changed :
      (now : ℕ) (content id : String) (db : Db)
      → I db
      → I (record db {
        articles = update_where (is_active_article id) (with_content now content) db.articles;
      })
  pub article_gone :
      (now : ℕ) (id : String) (db : Db)
      → I db
      → I (record db {
        articles = update_where (is_unremoved_article id) (removed_article now) db.articles;
      })
  pub link_added :
      (now : ℕ) (id article_id href : String) (db : Db)
      → exists (λ (a : Article). str_eq a.id article_id) db.articles ≡ true
      → I db
      → I (record db {
        article_outbound_links = new_link now id article_id href ∷ db.article_outbound_links;
      })
  pub link_changed :
      (now : ℕ) (new_href old_href : String) (db : Db)
      → I db
      → I (record db {
        article_outbound_links =
            update_where (points_to old_href) (repointed now new_href) db.article_outbound_links;
      })
  pub feed_added :
      (now : ℕ) (p : CreateFeedParams) (db : Db)
      → ltb (count_where (is_active_feed_of p.user_id) db.feeds) 5 ≡ true
      → exists (λ (f : Feed). str_eq f.id p.id) db.feeds ≡ false
      → exists (λ (u : User). str_eq u.id p.user_id) db.users ≡ true
      → I db
      → I (record db { feeds = new_feed now p ∷ db.feeds })
  pub feed_changed :
      (now : ℕ) (p : UpdateFeedParams) (db : Db)
      → I db
      → I (record db {
        feeds = update_where (is_active_feed p.id p.user_id) (updated_feed now p) db.feeds;
      })
  pub feed_gone :
      (now : ℕ) (id user_id : String) (db : Db)
      → I db
      → I (record db {
        feeds = update_where (is_unremoved_feed id user_id) (removed_feed now) db.feeds;
      })
  pub associated :
      (now : ℕ) (id article_id feed_id : String) (db : Db)
      → I db
      → I (record db {
        articles_feeds = new_article_feed now id article_id feed_id ∷ db.articles_feeds;
      })
  pub marked :
      (now : ℕ) (article_id user_id : String) (db : Db)
      → I db
      → I (record db {
        articles_feeds =
            update_where (is_unread_of article_id user_id db) (read_at now) db.articles_feeds;
      })
  pub token_added :
      (now : ℕ) (id user_id : String) (at : ℕ) (db : Db)
      → exists (λ (t : RefreshToken). str_eq t.id id) db.refresh_tokens ≡ false
      → exists (is_unremoved_token_of user_id) db.refresh_tokens ≡ false
      → I db
      → I (record db { refresh_tokens = new_token now id user_id at ∷ db.refresh_tokens })
  pub token_extended :
      (now : ℕ) (id : String) (at : ℕ) (db : Db)
      → I db
      → I (record db {
        refresh_tokens = update_where (is_active_token id) (extended now at) db.refresh_tokens;
      })
  pub token_gone :
      (now : ℕ) (id : String) (db : Db)
      → I db
      → I (record db {
        refresh_tokens = update_where (is_unremoved_token id) (revoked now) db.refresh_tokens;
      })
  pub tokens_gone :
      (now : ℕ) (user_id : String) (db : Db) → I db → I (without_tokens now user_id db)
  pub user_added :
      (n n' : ℕ) (p : CreateUserParams) (q : CreateUserPreferencesParams) (db : Db)
      → exists (UserRows.clashes p) db.users ≡ false
      → q.user_id ≡ p.id
      → I db
      → I (record db {
        users = new_user n p ∷ db.users;
        user_preferences = new_preferences n' q ∷ db.user_preferences;
      })
  pub user_logged_in :
      (now : ℕ) (id : String) (db : Db)
      → I db
      → I (record db { users = update_where (is_active_user id) (logged_in_at now) db.users })
  pub user_seen :
      (now : ℕ) (id : String) (db : Db)
      → I db
      → I (record db { users = update_where (is_active_user id) (active_at now) db.users })
  pub user_gone :
      (n n' n'' n''' : ℕ) (id : String) (db : Db)
      → I db
      → I (
          without_feeds n''' id
            (without_tokens n'' id (without_preferences n' id (without_user n id db))))
  pub preferences_changed :
      (now : ℕ) (language : Option String) (personality user_id : String) (db : Db)
      → I db
      → I (record db {
        user_preferences =
            update_where
              (is_active_of user_id)
              (updated_preferences now language personality)
              db.user_preferences;
      })
  pub system_changed : (ss : List System) (db : Db) → I db → I (record db { system = ss })
