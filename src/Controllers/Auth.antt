-- ===== src/Controllers/Auth.antt =====
-- services/controllers/auth.go: the login callback and the refresh. Google's answer is a parameter.
use news_feed_backend.Prelude.{ℕ, String, Bool, true, false, Option, ◌+◌, if◌then◌else◌}
use mathlib.Core.Option.{get_or}
use news_feed_backend.Store.{
  User, UserPreference, RefreshToken, Error, Result, ok, err, M, pure, raise, ◌>>=◌, ◌>>◌, attempt,
  now_is, with_transaction, user_not_found,
}
use news_feed_backend.Controllers.Users
use news_feed_backend.Controllers.RefreshTokens
use news_feed_backend.Controllers.UserPreferences

pub record GoogleUserInfo : Type 0 where
  pub id : String
  pub email : String
  pub name : String
  pub picture : String

abbrev pub is_user_not_found : Error → Bool
is_user_not_found user_not_found = true
is_user_not_found _ = false

abbrev pub or_create : GoogleUserInfo → Result User → M User
or_create info (ok user) = pure user
or_create info (err e) =
    if is_user_not_found e
    then Users.create_user info.id info.email info.name info.picture
    else raise e

unfoldable pub find_or_create_user : GoogleUserInfo → M User
find_or_create_user info = do
  found ← attempt (Users.find_user_by_google_id info.id)
  or_create info found

-- What a transaction hands to GenerateAccessToken.
pub record Session : Type 0 where
  pub user : User
  pub prefs : UserPreference
  pub refresh_token : RefreshToken

module _ (expiry : ℕ) where
  -- The body of the transaction of HandleGoogleCallback.
  unfoldable pub open_session : GoogleUserInfo → M Session
  open_session info = do
    user ← find_or_create_user info
    RefreshTokens.revoke_all user.id
    Users.update_user_last_login user.id
    Users.update_user_last_active user.id
    prefs ← UserPreferences.find_by_user_id user.id
    token ← RefreshTokens.create expiry user.id
    pure (record { user = user; prefs = prefs; refresh_token = token })

  -- The body of the transaction of RefreshAccessToken.
  unfoldable pub renew_session : String → M Session
  renew_session refresh_token_id = do
    token ← RefreshTokens.find_by_id refresh_token_id
    user ← Users.find_user_by_id token.user_id
    prefs ← UserPreferences.find_by_user_id user.id
    Users.update_user_last_active user.id
    RefreshTokens.extend expiry token.id
    pure (record { user = user; prefs = prefs; refresh_token = token })

-- schemas.Claims
pub record Claims : Type 0 where
  pub user_id : String
  pub email : String
  pub name : String
  pub picture : String
  pub refresh_token_id : String
  pub created_at : ℕ
  pub language_to_translate : Option String
  pub ai_personality : String
  pub admin : Bool
  pub expires_at : ℕ
  pub issued_at : ℕ

-- The claims that GenerateAccessToken signs; the signature itself is the JWT library's. `lifetime`
-- is accessTokenExpiry.
unfoldable pub access_claims : ℕ → ℕ → User → String → UserPreference → Claims
access_claims lifetime now user refresh_token_id prefs = record {
  user_id = user.id;
  email = user.email;
  name = user.name;
  picture = get_or user.picture "";
  refresh_token_id = refresh_token_id;
  created_at = user.created_at;
  language_to_translate = UserPreferences.language_to_translate_ptr prefs;
  ai_personality = prefs.ai_personality;
  admin = user.admin;
  expires_at = now + lifetime;
  issued_at = now;
}

pub record AuthResponse : Type 0 where
  pub access_token : Claims
  pub refresh_token : String
  pub expires_in : ℕ

abbrev pub auth_response : ℕ → Session → M AuthResponse
auth_response lifetime s w = (
  ok (record {
    access_token = access_claims lifetime w.now s.user s.refresh_token.id s.prefs;
    refresh_token = s.refresh_token.id;
    expires_in = lifetime;
  }),
  w,
)

-- HandleGoogleCallback, behind the exchange of the code for what Google knows of the user.
unfoldable pub handle_google_callback : ℕ → ℕ → Result GoogleUserInfo → M AuthResponse
handle_google_callback expiry lifetime (err e) = raise e
handle_google_callback expiry lifetime (ok info) = do
  session ← with_transaction (open_session expiry info)
  auth_response lifetime session

unfoldable pub refresh_access_token : ℕ → ℕ → String → M AuthResponse
refresh_access_token expiry lifetime refresh_token_id = do
  session ← with_transaction (renew_session expiry refresh_token_id)
  auth_response lifetime session

unfoldable pub regenerate_from_claims : ℕ → Claims → UserPreference → M Claims
regenerate_from_claims lifetime claims prefs = do
  user ← Users.find_user_by_id claims.user_id
  now ← now_is
  pure (access_claims lifetime now user claims.refresh_token_id prefs)
