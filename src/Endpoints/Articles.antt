-- ===== src/Endpoints/Articles.antt =====
-- services/endpoints/v1/articles: create.go, update.go, delete.go and mark_as_read.go
use Prim.Native.Char.{Char}
use news_feed_backend.Prelude.{
  ℕ, String, str_eq, Bool, true, false, List, Option, some, if◌then◌else◌,
}
use news_feed_backend.Store.{
  Article, Error, M, World, ◌>>=◌, ◌>>◌, with_transaction, article_not_found,
  article_already_exists, article_source_invalid,
}
use news_feed_backend.Controllers.Articles
use news_feed_backend.Controllers.ArticlesFeeds
use news_feed_backend.Controllers.OutboundLinks
use news_feed_backend.Outbound.Hrefs.{internal_href}
use news_feed_backend.Endpoints.Reply.{
  Reply, done, failed, Handler, respond, guarded, with_body, id_message,
}
use news_feed_backend.Endpoints.Validation.{validate_article_input, validate_language_original}

pub record ArticleRequest : Type 0 where
  pub title : String
  pub content : String
  pub url_original : String
  pub keywords : List String
  pub language_original : String
  pub source_id : String

abbrev pub create_failure : Error → ℕ
create_failure article_already_exists = 409
create_failure article_source_invalid = 400
create_failure _ = 500

abbrev pub update_failure : Error → ℕ
update_failure article_not_found = 404
update_failure article_already_exists = 409
update_failure _ = 500

abbrev pub not_found_failure : Error → ℕ
not_found_failure article_not_found = 404
not_found_failure _ = 500

abbrev pub source_id_message : String → String
source_id_message source_id = if str_eq source_id "" then "source_id is required" else ""

module _ (lower : Char → Char) (valid_url : String → Bool) where
  unfoldable pub create_article : Option ArticleRequest → Handler Article
  create_article body = with_body body λ r.
      guarded (validate_article_input valid_url r.title r.content r.url_original r.keywords) (
        guarded (source_id_message r.source_id) (
          guarded (validate_language_original r.language_original) (
            respond 201 create_failure (
              with_transaction (
                Articles.create lower r.title r.content r.url_original r.source_id r.keywords
                  (some r.language_original))))))

  unfoldable pub update_article : String → Option ArticleRequest → Handler Article
  update_article id body = guarded (id_message id) (
      with_body body λ r.
        guarded (validate_article_input valid_url r.title r.content r.url_original r.keywords) (
          guarded (validate_language_original r.language_original) (
            respond 200 update_failure (
              with_transaction (
                Articles.update lower id r.title r.content r.url_original r.keywords
                  (some r.language_original))))))

-- The body of the transaction of DeleteArticle.
unfoldable pub remove_article : String → M (Unit {0})
remove_article id = do
  article ← Articles.find_by_id id
  OutboundLinks.retarget (internal_href id) article.url_original
  Articles.soft_delete id

unfoldable pub delete_article : String → Handler (Unit {0})
delete_article id =
    guarded (id_message id) (respond 204 not_found_failure (with_transaction (remove_article id)))

-- The body of the transaction of MarkAsRead, for the user of the claims.
unfoldable pub mark_article : String → String → M Bool
mark_article id user_id = do Articles.find_by_id id; ArticlesFeeds.mark_as_read id user_id

-- 200 if the article is in a feed of the user, 204 if it is in none.
abbrev pub marked : Reply Bool × World → Reply Bool × World
marked (done status true, w) = (done 200 true, w)
marked (done status false, w) = (done 204 false, w)
marked (failed status, w) = (failed status, w)

unfoldable pub mark_as_read : String → String → Handler Bool
mark_as_read id user_id w =
    marked (respond 200 not_found_failure (with_transaction (mark_article id user_id)) w)
