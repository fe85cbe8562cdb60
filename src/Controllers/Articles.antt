-- ===== src/Controllers/Articles.antt =====
-- services/controllers/articles.go. A list of a page and the keyword suggestions are elsewhere.
use Prim.Native.Char.{Char}
use news_feed_backend.Prelude.{String, str_eq, List, Option, none, some, if◌then◌else◌}
use news_feed_backend.Store.{
  Article, M, ◌>>=◌, ◌>>◌, map_err, new_uuid, article_not_found, article_already_exists,
  article_source_invalid,
}
use news_feed_backend.Queries.Sources.{find_source_by_id}
use news_feed_backend.Queries.Articles.{
  create_article, find_article_by_id, find_article_by_url_original, update_article,
  update_article_content, soft_delete_article,
}
use news_feed_backend.Controllers.Errors.{when_missing, when_taken}
use news_feed_backend.Controllers.Keywords.{encode_keywords}

-- A missing or empty text becomes NULL.
abbrev pub null_string : Option String → Option String
null_string none = none
null_string (some s) = if str_eq s "" then none else some s

module _ (lower : Char → Char) where
  unfoldable pub create :
      String → String → String → String → List String → Option String → M Article
  create title content url_original source_id keywords language_original = do
    map_err (when_missing article_source_invalid) (find_source_by_id source_id)
    id ← new_uuid
    map_err (when_taken article_already_exists) (
        create_article (record {
          id = id;
          title = title;
          content = content;
          url_original = url_original;
          keywords = encode_keywords lower keywords;
          source_id = source_id;
          language_original = null_string language_original;
        }))

  unfoldable pub update :
      String → String → String → String → List String → Option String → M Article
  update id title content url_original keywords language_original =
      map_err (λ e. when_taken article_already_exists (when_missing article_not_found e))
        (update_article (record {
          id = id;
          title = title;
          content = content;
          url_original = url_original;
          keywords = encode_keywords lower keywords;
          language_original = null_string language_original;
        }))

unfoldable pub find_by_id : String → M Article
find_by_id id = map_err (when_missing article_not_found) (find_article_by_id id)

unfoldable pub find_by_url_original : String → M Article
find_by_url_original url =
    map_err (when_missing article_not_found) (find_article_by_url_original url)

unfoldable pub update_content : String → String → M (Unit {0})
update_content id content = update_article_content content id

unfoldable pub soft_delete : String → M (Unit {0})
soft_delete id = soft_delete_article id
