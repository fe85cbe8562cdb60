-- ===== src/Reading/Responses.antt =====
-- The responses of schemas/articles.go, sources.go, feeds.go and users.go, with toArticleResponse,
-- toSourceResponse and toFeedResponse of services/endpoints/v1, and OutboundLinksByID of
-- services/controllers/article_outbound_links.go.
use news_feed_backend.Prelude.{ℕ, String, Bool, Option, none, List, [], ◌∷◌}
use news_feed_backend.Store.{Article, ArticleOutboundLink, Source, Feed}
use news_feed_backend.Controllers.Auth.{Claims}
use news_feed_backend.Outbound.Anchors.{Nodes}
use news_feed_backend.Outbound.Bodies.{Link, resolve}

pub record SourceResponse : Type 0 where
  pub id : String
  pub status : Bool
  pub name : String
  pub url : String
  pub url_rss : String
  pub created_at : ℕ
  pub modified_at : Option ℕ

pub record FeedResponse : Type 0 where
  pub id : String
  pub status : Bool
  pub name : String
  pub keywords : List String
  pub user_id : String
  pub created_at : ℕ
  pub modified_at : Option ℕ

pub record ArticleResponse : Type 0 where
  pub id : String
  pub status : Bool
  pub title : String
  pub content : String
  pub url_original : String
  pub keywords : List String
  pub source_id : String
  pub language_original : Option String
  pub created_at : ℕ
  pub modified_at : Option ℕ
  pub is_read : Option Bool
  pub source : Option SourceResponse

pub record UserResponse : Type 0 where
  pub id : String
  pub email : String
  pub name : String
  pub picture : String
  pub admin : Bool
  pub created_at : ℕ

pub record UserPreferencesResponse : Type 0 where
  pub language_to_translate : Option String
  pub ai_personality : String

abbrev pub to_source_response : Source → SourceResponse
to_source_response s = record {
  id = s.id;
  status = s.status;
  name = s.name;
  url = s.url;
  url_rss = s.url_rss;
  created_at = s.created_at;
  modified_at = s.modified_at;
}

abbrev pub to_feed_response : Feed → FeedResponse
to_feed_response f = record {
  id = f.id;
  status = f.status;
  name = f.name;
  keywords = f.keywords;
  user_id = f.user_id;
  created_at = f.created_at;
  modified_at = f.modified_at;
}

abbrev pub to_article_response : Article → ArticleResponse
to_article_response a = record {
  id = a.id;
  status = a.status;
  title = a.title;
  content = a.content;
  url_original = a.url_original;
  keywords = a.keywords;
  source_id = a.source_id;
  language_original = a.language_original;
  created_at = a.created_at;
  modified_at = a.modified_at;
  is_read = none;
  source = none;
}

-- OutboundLinksByID: the entries of the map that Resolve takes. Ids are unique, so that the order
-- of the entries does not matter.
abbrev pub outbound_links_by_id : List ArticleOutboundLink → List Link
outbound_links_by_id [] = []
outbound_links_by_id (l ∷ ls) = record { id = l.id; href = l.href } ∷ outbound_links_by_id ls

-- What follows toArticleResponse in a handler: the links of the body are replaced. `parse` and
-- `render` are the HTML library.
module _ (parse : String → Option Nodes) (render : Nodes → Option String) where
  abbrev pub shown_article : List ArticleOutboundLink → String → Article → ArticleResponse
  shown_article links client_url a = record (to_article_response a) {
    content = resolve parse render a.content (outbound_links_by_id links) client_url;
  }

-- users/me.go and users/get_preferences.go, which answer from the claims.
unfoldable pub get_me : Claims → UserResponse
get_me claims = record {
  id = claims.user_id;
  email = claims.email;
  name = claims.name;
  picture = claims.picture;
  admin = claims.admin;
  created_at = claims.created_at;
}

unfoldable pub get_preferences : Claims → UserPreferencesResponse
get_preferences claims = record {
  language_to_translate = claims.language_to_translate;
  ai_personality = claims.ai_personality;
}
