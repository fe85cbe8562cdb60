-- ===== src/Middlewares.antt =====
-- The package middlewares: auth.go, admin.go and app_status.go. `parse` is what
-- jwt.ParseWithClaims makes of a token with the secret and the check of its signing method: the
-- claims of a valid token, or nothing.
pub mod Guards
pub mod Sessions
use news_feed_backend.Prelude.{
  ℕ, String, str_eq, Bool, true, false, Option, none, some, if◌then◌else◌,
}
use news_feed_backend.Store.{
  Error, Result, ok, err, World, M, RefreshToken, System, User, with_transaction, raise,
  refresh_token_not_found, refresh_token_expired, user_not_found,
}
use news_feed_backend.Outbound.Hrefs.{strip_prefix}
use news_feed_backend.Controllers.Auth.{Claims}
use news_feed_backend.Controllers.RefreshTokens
use news_feed_backend.Controllers.Users
use news_feed_backend.Controllers.ControlPanel

-- c.Next, or an answer with a status.
pub data Gate (A : Type 0) : Type 0 where
  next : A → Gate A
  stopped : ℕ → Gate A

-- checkSession
unfoldable pub check_session : String → M RefreshToken
check_session id =
    if str_eq id ""
    then raise refresh_token_not_found
    else with_transaction (RefreshTokens.find_by_id id)

abbrev pub session_status : Error → ℕ
session_status refresh_token_not_found = 401
session_status refresh_token_expired = 401
session_status _ = 500

-- The end of validateSession.
abbrev pub session_gate : Claims → Result RefreshToken × World → Gate Claims × World
session_gate claims (ok t, w) = (next claims, w)
session_gate claims (err e, w) = (stopped (session_status e), w)

-- What IsAdmin makes of the row of the user, or of the error: `none` is an error.
abbrev pub admin_of : Result User × World → Option Bool × World
admin_of (ok u, w) = (some u.admin, w)
admin_of (err user_not_found, w) = (some false, w)
admin_of (err e, w) = (none, w)

unfoldable pub is_admin : String → World → Option Bool × World
is_admin user_id w = admin_of (with_transaction (Users.find_user_by_id user_id) w)

abbrev pub admin_gate : Claims → Option Bool × World → Gate Claims × World
admin_gate claims (some true, w) = (next claims, w)
admin_gate claims (some false, w) = (stopped 403, w)
admin_gate claims (none, w) = (stopped 500, w)

-- NewRequireAdminMiddleware
unfoldable pub require_admin : Claims → World → Gate Claims × World
require_admin claims w = admin_gate claims (is_admin claims.user_id w)

abbrev pub or_false : Option Bool × World → Bool × World
or_false (some b, w) = (b, w)
or_false (none, w) = (false, w)

module _ (parse : String → Option Claims) where
  abbrev pub parse_bearer : Option String → Option Claims
  parse_bearer none = none
  parse_bearer (some token) = parse token

  -- parseAccessToken, on the header Authorization
  unfoldable pub parse_access_token : String → Option Claims
  parse_access_token header = parse_bearer (strip_prefix "Bearer " header)

  abbrev pub validate_session : Option Claims → World → Gate Claims × World
  validate_session none w = (stopped 401, w)
  validate_session (some claims) w = session_gate claims (check_session claims.refresh_token_id w)

  -- The two handlers of NewAuthMiddleware.
  unfoldable pub authenticate : String → World → Gate Claims × World
  authenticate header w = validate_session (parse_access_token header) w

  abbrev pub admin_behind : Claims → Result RefreshToken × World → Bool × World
  admin_behind claims (ok t, w) = or_false (is_admin claims.user_id w)
  admin_behind claims (err e, w) = (false, w)

  abbrev pub admin_with : Option Claims → World → Bool × World
  admin_with none w = (false, w)
  admin_with (some claims) w = admin_behind claims (check_session claims.refresh_token_id w)

  -- IsRequestFromAdmin
  unfoldable pub is_request_from_admin : String → World → Bool × World
  is_request_from_admin header w = admin_with (parse_access_token header) w

  abbrev pub maintenance_gate : Bool × World → Gate (Unit {0}) × World
  maintenance_gate (true, w) = (next tt, w)
  maintenance_gate (false, w) = (stopped 503, w)

  abbrev pub status_gate : String → Bool → World → Gate (Unit {0}) × World
  status_gate header true w = (next tt, w)
  status_gate header false w = maintenance_gate (is_request_from_admin header w)

  abbrev pub status_read : String → Result System × World → Gate (Unit {0}) × World
  status_read header (err e, w) = (stopped 500, w)
  status_read header (ok s, w) = status_gate header s.app_status w

  -- NewAppStatusMiddleware
  unfoldable pub app_status_guard : String → World → Gate (Unit {0}) × World
  app_status_guard header w = status_read header (with_transaction ControlPanel.get w)
