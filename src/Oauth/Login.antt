-- ===== src/Oauth/Login.antt =====
-- GoogleLogin and GoogleCallback of services/endpoints/v1/auth. The location of the answer of the
-- callback is kept in its parts: the redirect URI, and what its query or fragment carries.
use news_feed_backend.Prelude.{
  ℕ, String, str_eq, Bool, false, Option, none, some, List, exists, if◌then◌else◌,
}
use news_feed_backend.Store.{Result, M, pure, ◌>>=◌}
use news_feed_backend.Controllers.Auth.{GoogleUserInfo, AuthResponse, handle_google_callback}
use news_feed_backend.Endpoints.Reply.{Handler, done, failed, respond}
use news_feed_backend.Oauth.States.{StateClaims, generate, validate}

unfoldable pub is_allowed_redirect_uri : String → List String → Bool
is_allowed_redirect_uri uri allowed =
    if str_eq uri "" then false else exists (λ (a : String). str_eq uri a) allowed

-- `auth_code_url` is AuthCodeURL of the configuration.
abbrev pub state_url : (String → String) → (StateClaims → String) → String → M String
state_url auth_code_url sign redirect_uri = do
  state ← generate sign redirect_uri
  pure (auth_code_url state)

unfoldable pub google_login :
    (String → String) → (StateClaims → String) → List String → String → Handler String
unfolding is_allowed_redirect_uri
google_login auth_code_url sign allowed redirect_uri w =
    if is_allowed_redirect_uri redirect_uri allowed
    then respond 307 (λ e. 500) (state_url auth_code_url sign redirect_uri) w
    else (failed 400, w)

pub data Carried : Type 0 where
  error_query : String → Carried
  token_fragment : AuthResponse → Carried

pub record Location : Type 0 where
  pub base : String
  pub carried : Carried

module _ (verify : ℕ → String → Option StateClaims) (expiry lifetime : ℕ) where
  abbrev pub with_tokens : String → Result GoogleUserInfo → M Location
  with_tokens redirect_uri info = do
    response ← handle_google_callback expiry lifetime info
    pure (record { base = redirect_uri; carried = token_fragment response })

  -- The part behind the check of the state.
  abbrev pub bounce : String → String → Result GoogleUserInfo → Option String → Handler Location
  bounce oauth_error code info none w = (failed 401, w)
  bounce oauth_error code info (some redirect_uri) w =
      let logged_in = respond 307 (λ e. 401) (with_tokens redirect_uri info) w in
      if str_eq oauth_error ""
      then if str_eq code "" then (failed 401, w) else logged_in
      else (done 307 (record { base = redirect_uri; carried = error_query oauth_error }), w)

  -- `info` is what the exchange of the code brings.
  unfoldable pub google_callback :
      String → String → String → Result GoogleUserInfo → Handler Location
  google_callback state oauth_error code info w =
      bounce oauth_error code info (validate verify w.now state) w
