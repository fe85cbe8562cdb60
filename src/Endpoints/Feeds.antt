-- ===== src/Endpoints/Feeds.antt =====
-- services/endpoints/v1/feeds: create.go, update.go and delete.go, for the user of the claims.
use Prim.Native.Char.{Char}
use news_feed_backend.Prelude.{ℕ, String, List, Option}
use news_feed_backend.Store.{
  Feed, Error, M, ◌>>◌, with_transaction, feed_not_found, feed_limit_reached,
}
use news_feed_backend.Controllers.Feeds
use news_feed_backend.Endpoints.Reply.{Handler, respond, guarded, with_body, id_message}
use news_feed_backend.Endpoints.Validation.{validate_feed_input}

pub record FeedRequest : Type 0 where
  pub name : String
  pub keywords : List String

abbrev pub create_failure : Error → ℕ
create_failure feed_limit_reached = 409
create_failure _ = 500

abbrev pub not_found_failure : Error → ℕ
not_found_failure feed_not_found = 404
not_found_failure _ = 500

module _ (lower : Char → Char) where
  unfoldable pub create_feed : String → Option FeedRequest → Handler Feed
  create_feed user_id body = with_body body λ r.
      guarded (validate_feed_input r.name r.keywords) (
        respond 201 create_failure
          (with_transaction (Feeds.create lower user_id r.name r.keywords)))

  unfoldable pub update_feed : String → String → Option FeedRequest → Handler Feed
  update_feed user_id id body = guarded (id_message id) (
      with_body body λ r. guarded (validate_feed_input r.name r.keywords) (
        respond 200 not_found_failure
          (with_transaction (Feeds.update lower id user_id r.name r.keywords))))

-- The body of the transaction of DeleteFeed.
unfoldable pub remove_feed : String → String → M (Unit {0})
remove_feed id user_id = do Feeds.find_by_id id user_id; Feeds.soft_delete id user_id

unfoldable pub delete_feed : String → String → Handler (Unit {0})
delete_feed user_id id =
    guarded (id_message id)
      (respond 204 not_found_failure (with_transaction (remove_feed id user_id)))
