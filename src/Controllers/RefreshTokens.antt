-- ===== src/Controllers/RefreshTokens.antt =====
-- services/controllers/refresh_tokens.go. `expiry` is the controller's field.
use news_feed_backend.Prelude.{ℕ, ◌+◌, String, ltb, if◌then◌else◌}
use news_feed_backend.Store.{
  RefreshToken, M, pure, raise, ◌>>=◌, map_err, new_uuid, now_is, refresh_token_not_found,
  refresh_token_expired,
}
use news_feed_backend.Queries.RefreshTokens.{
  create_refresh_token, find_refresh_token_by_id, extend_refresh_token, revoke_refresh_token,
  revoke_all_refresh_tokens_by_user_id,
}
use news_feed_backend.Controllers.Errors.{when_missing}

module _ (expiry : ℕ) where
  unfoldable pub create : String → M RefreshToken
  create user_id = do id ← new_uuid; now ← now_is; create_refresh_token id user_id (now + expiry)

  unfoldable pub extend : String → M (Unit {0})
  extend id = do now ← now_is; extend_refresh_token id (now + expiry)

abbrev pub unless_expired : RefreshToken → ℕ → M RefreshToken
unless_expired token now =
    if ltb token.expires_at now then raise refresh_token_expired else pure token

unfoldable pub find_by_id : String → M RefreshToken
find_by_id id = do
  token ← map_err (when_missing refresh_token_not_found) (find_refresh_token_by_id id)
  now ← now_is
  unless_expired token now

unfoldable pub revoke : String → M (Unit {0})
revoke id = revoke_refresh_token id

unfoldable pub revoke_all : String → M (Unit {0})
revoke_all user_id = revoke_all_refresh_tokens_by_user_id user_id
