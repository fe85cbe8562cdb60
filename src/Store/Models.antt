-- ===== src/Store/Models.antt =====
-- sqlc/models.go: one record for each table, and the database as the lists of their rows.
-- Instants are natural numbers (an instant of TIMESTAMPTZ has no zone), nullable columns are
-- options, and a JSONB array of keywords is the list of its texts.
use news_feed_backend.Prelude.{ℕ, String, Bool, ◌&&◌, Option, List, is_none}

pub record Article : Type 0 where
  pub id : String
  pub status : Bool
  pub title : String
  pub content : String
  pub url_original : String
  pub keywords : List String
  pub source_id : String
  pub language_original : Option String
  pub created_at : ℕ
  pub modified_at : Option ℕ
  pub removed_at : Option ℕ

pub record ArticleOutboundLink : Type 0 where
  pub id : String
  pub article_id : String
  pub href : String
  pub created_at : ℕ
  pub modified_at : Option ℕ

pub record ArticlesFeed : Type 0 where
  pub id : String
  pub article_id : String
  pub feed_id : String
  pub is_read : Bool
  pub created_at : ℕ
  pub modified_at : Option ℕ

pub record Feed : Type 0 where
  pub id : String
  pub status : Bool
  pub name : String
  pub keywords : List String
  pub user_id : String
  pub created_at : ℕ
  pub modified_at : Option ℕ
  pub removed_at : Option ℕ

pub record RefreshToken : Type 0 where
  pub id : String
  pub user_id : String
  pub status : Bool
  pub expires_at : ℕ
  pub created_at : ℕ
  pub modified_at : Option ℕ
  pub removed_at : Option ℕ

pub record Source : Type 0 where
  pub id : String
  pub status : Bool
  pub name : String
  pub url : String
  pub url_rss : String
  pub created_at : ℕ
  pub modified_at : Option ℕ
  pub removed_at : Option ℕ

pub record System : Type 0 where
  pub id : String
  pub app_status : Bool
  pub last_article_discovery_at : Option ℕ
  pub created_at : ℕ
  pub modified_at : Option ℕ

pub record User : Type 0 where
  pub id : String
  pub google_id : String
  pub email : String
  pub name : String
  pub picture : Option String
  pub status : Bool
  pub last_login_at : Option ℕ
  pub created_at : ℕ
  pub modified_at : Option ℕ
  pub removed_at : Option ℕ
  pub admin : Bool
  pub last_active_at : ℕ

pub record UserPreference : Type 0 where
  pub id : String
  pub user_id : String
  pub status : Bool
  pub language_to_translate : Option String
  pub ai_personality : String
  pub created_at : ℕ
  pub modified_at : Option ℕ
  pub removed_at : Option ℕ

-- `system` is the list of the rows of the control panel: the migration puts one row there.
pub record Db : Type 0 where
  pub articles : List Article
  pub article_outbound_links : List ArticleOutboundLink
  pub articles_feeds : List ArticlesFeed
  pub feeds : List Feed
  pub refresh_tokens : List RefreshToken
  pub sources : List Source
  pub system : List System
  pub users : List User
  pub user_preferences : List UserPreference

-- The test `status = TRUE AND removed_at IS NULL` of the queries, on the two columns.
abbrev pub live : Bool → Option ℕ → Bool
live status removed_at = status && is_none removed_at
