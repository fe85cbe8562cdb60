-- ===== src/Controllers/Users.antt =====
-- services/controllers/users.go
use news_feed_backend.Prelude.{String, str_eq, Bool, Option, none, some, if◌then◌else◌}
use news_feed_backend.Store.{
  User, M, pure, ◌>>=◌, ◌>>◌, map_err, new_uuid, user_not_found, user_already_exists,
}
use news_feed_backend.Queries.Users.{
  create_user as insert_user, find_user_by_id as select_user,
  find_user_by_google_id as select_google, update_user_last_login as stamp_login,
  update_user_last_active as stamp_active, set_user_admin, soft_delete_user as remove_user,
}
use news_feed_backend.Queries.UserPreferences.{
  create_user_preferences, soft_delete_user_preferences,
}
use news_feed_backend.Queries.RefreshTokens.{revoke_all_refresh_tokens_by_user_id}
use news_feed_backend.Queries.Feeds.{soft_delete_feeds_by_user}
use news_feed_backend.Controllers.Errors.{when_missing, when_taken}
use news_feed_backend.Controllers.UserPreferences.{default_preferences_params}

abbrev pub null_if_empty : String → Option String
null_if_empty picture = if str_eq picture "" then none else some picture

unfoldable pub create_user : String → String → String → String → M User
create_user google_id email name picture = do
  id ← new_uuid
  user ← map_err (when_taken user_already_exists) (
      insert_user (record {
        id = id;
        google_id = google_id;
        email = email;
        name = name;
        picture = null_if_empty picture;
      }))
  params ← default_preferences_params user.id
  create_user_preferences params
  pure user

unfoldable pub find_user_by_id : String → M User
find_user_by_id id = map_err (when_missing user_not_found) (select_user id)

unfoldable pub find_user_by_google_id : String → M User
find_user_by_google_id google_id = map_err (when_missing user_not_found) (select_google google_id)

unfoldable pub update_user_last_login : String → M (Unit {0})
update_user_last_login id = stamp_login id

unfoldable pub update_user_last_active : String → M (Unit {0})
update_user_last_active id = stamp_active id

unfoldable pub set_admin : String → Bool → M User
set_admin id admin = map_err (when_missing user_not_found) (set_user_admin id admin)

unfoldable pub soft_delete_user : String → M (Unit {0})
soft_delete_user id = do
  remove_user id
  soft_delete_user_preferences id
  revoke_all_refresh_tokens_by_user_id id
  soft_delete_feeds_by_user id
