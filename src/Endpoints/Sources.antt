-- ===== src/Endpoints/Sources.antt =====
-- services/endpoints/v1/sources: create.go, update.go and delete.go
use news_feed_backend.Prelude.{ℕ, String, Bool, Option}
use news_feed_backend.Store.{
  Source, Error, M, ◌>>◌, with_transaction, source_not_found, source_already_exists,
}
use news_feed_backend.Controllers.Sources
use news_feed_backend.Endpoints.Reply.{Handler, respond, guarded, with_body, id_message}
use news_feed_backend.Endpoints.Validation.{validate_source_input}

pub record SourceRequest : Type 0 where
  pub name : String
  pub url : String
  pub url_rss : String

abbrev pub create_failure : Error → ℕ
create_failure source_already_exists = 409
create_failure _ = 500

abbrev pub update_failure : Error → ℕ
update_failure source_not_found = 404
update_failure source_already_exists = 409
update_failure _ = 500

abbrev pub delete_failure : Error → ℕ
delete_failure source_not_found = 404
delete_failure _ = 500

module _ (valid_url : String → Bool) where
  unfoldable pub create_source : Option SourceRequest → Handler Source
  create_source body = with_body body λ r.
      guarded (validate_source_input valid_url r.name r.url r.url_rss)
        (respond 201 create_failure (with_transaction (Sources.create r.name r.url r.url_rss)))

  unfoldable pub update_source : String → Option SourceRequest → Handler Source
  update_source id body = guarded (id_message id) (
      with_body body λ r.
        guarded (validate_source_input valid_url r.name r.url r.url_rss) (
          respond 200 update_failure (with_transaction (Sources.update id r.name r.url r.url_rss))))

-- The body of the transaction of DeleteSource.
unfoldable pub remove_source : String → M (Unit {0})
remove_source id = do Sources.find_by_id id; Sources.soft_delete id

unfoldable pub delete_source : String → Handler (Unit {0})
delete_source id =
    guarded (id_message id) (respond 204 delete_failure (with_transaction (remove_source id)))
