-- ===== src/Endpoints/Sessions.antt =====
-- services/endpoints/v1/auth: refresh.go, logout.go, invalidate.go and invalidate_all.go
use news_feed_backend.Prelude.{ℕ, String, str_eq, Option, if◌then◌else◌}
use news_feed_backend.Store.{
  Error, with_transaction, refresh_token_not_found, refresh_token_expired,
}
use news_feed_backend.Controllers.RefreshTokens
use news_feed_backend.Controllers.Auth.{AuthResponse, Claims, refresh_access_token}
use news_feed_backend.Endpoints.Reply.{Handler, respond, guarded, with_body}

abbrev pub internal_failure : Error → ℕ
internal_failure _ = 500

abbrev pub refresh_failure : Error → ℕ
refresh_failure refresh_token_not_found = 401
refresh_failure refresh_token_expired = 401
refresh_failure _ = 500

abbrev pub required : String → String
required s = if str_eq s "" then "is required" else ""

-- `expiry` is that of refresh tokens, `lifetime` that of access tokens.
unfoldable pub refresh_token : ℕ → ℕ → Option String → Handler AuthResponse
refresh_token expiry lifetime body = with_body body λ id.
    guarded (required id) (respond 200 refresh_failure (refresh_access_token expiry lifetime id))

unfoldable pub logout : Claims → Handler (Unit {0})
logout claims =
    respond 204 internal_failure (with_transaction (RefreshTokens.revoke claims.refresh_token_id))

unfoldable pub invalidate : Option String → Handler (Unit {0})
invalidate body = with_body body λ id.
    guarded (required id)
      (respond 204 internal_failure (with_transaction (RefreshTokens.revoke id)))

unfoldable pub invalidate_all : String → Handler (Unit {0})
invalidate_all user_id =
    guarded (required user_id)
      (respond 204 internal_failure (with_transaction (RefreshTokens.revoke_all user_id)))
