-- ===== src/Endpoints/Settings.antt =====
-- services/endpoints/v1/users/update_preferences.go and system/update_app_status.go
use news_feed_backend.Prelude.{ℕ, String, Bool, Option, none, some, if◌then◌else◌}
use news_feed_backend.Store.{System, UserPreference, M, pure, ◌>>=◌, with_transaction}
use news_feed_backend.Controllers.ControlPanel
use news_feed_backend.Controllers.UserPreferences
use news_feed_backend.Controllers.Auth.{Claims, regenerate_from_claims}
use news_feed_backend.Endpoints.Reply.{Handler, respond, guarded, with_body}
use news_feed_backend.Endpoints.Sessions.{internal_failure}
use news_feed_backend.Endpoints.Validation.{is_language, is_personality}

pub record PreferencesRequest : Type 0 where
  pub language_to_translate : Option String
  pub ai_personality : String

abbrev pub language_message : Option String → String
language_message none = ""
language_message (some l) = if is_language l then "" else "invalid language_to_translate"

abbrev pub personality_message : String → String
personality_message p = if is_personality p then "" else "invalid ai_personality"

pub record PreferencesResponse : Type 0 where
  pub access_token : Claims
  pub preferences : UserPreference

-- The body of the transaction of UpdatePreferences.
unfoldable pub save_preferences : ℕ → Claims → PreferencesRequest → M PreferencesResponse
save_preferences lifetime claims r = do
  prefs ← UserPreferences.update claims.user_id r.language_to_translate r.ai_personality
  token ← regenerate_from_claims lifetime claims prefs
  pure (record { access_token = token; preferences = prefs })

unfoldable pub update_preferences :
    ℕ → Claims → Option PreferencesRequest → Handler PreferencesResponse
update_preferences lifetime claims body = with_body body λ r.
    guarded (language_message r.language_to_translate) (
      guarded (personality_message r.ai_personality)
        (respond 200 internal_failure (with_transaction (save_preferences lifetime claims r))))

-- The inner option is the pointer of the request, nil if the field is absent.
unfoldable pub update_app_status : Option (Option Bool) → Handler System
update_app_status body = with_body body λ r. with_body r λ active.
    respond 200 internal_failure (with_transaction (ControlPanel.update_app_status active))
