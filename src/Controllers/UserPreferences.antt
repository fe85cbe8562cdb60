-- ===== src/Controllers/UserPreferences.antt =====
-- services/controllers/user_preferences.go
use news_feed_backend.Prelude.{String, Option, some}
use news_feed_backend.Store.{
  UserPreference, M, pure, ◌>>=◌, map_err, new_uuid, user_preferences_not_found,
}
use news_feed_backend.Queries.UserPreferences.{
  CreateUserPreferencesParams, create_user_preferences, find_user_preferences_by_user_id,
  update_user_preferences, soft_delete_user_preferences,
}
use news_feed_backend.Controllers.Errors.{when_missing}

unfoldable pub default_preferences_params : String → M CreateUserPreferencesParams
default_preferences_params user_id = do
  id ← new_uuid
  pure (record {
    id = id;
    user_id = user_id;
    language_to_translate = some "pt";
    ai_personality = "mixed";
  })

-- LanguageToTranslatePtr
abbrev pub language_to_translate_ptr : UserPreference → Option String
language_to_translate_ptr prefs = prefs.language_to_translate

unfoldable pub create_default : String → M UserPreference
create_default user_id = do
  params ← default_preferences_params user_id
  create_user_preferences params

unfoldable pub find_by_user_id : String → M UserPreference
find_by_user_id user_id =
    map_err (when_missing user_preferences_not_found) (find_user_preferences_by_user_id user_id)

unfoldable pub update : String → Option String → String → M UserPreference
update user_id language personality = update_user_preferences language personality user_id

unfoldable pub soft_delete : String → M (Unit {0})
soft_delete user_id = soft_delete_user_preferences user_id
