-- ===== src/Queries/RefreshTokens.antt =====
-- sqlc/refresh_tokens.sql.go
use news_feed_backend.Prelude.{
  ℕ, String, str_eq, Bool, true, false, ◌&&◌, none, some, ◌∷◌, is_none, if◌then◌else◌, find_first,
  exists, update_where,
}
use news_feed_backend.Store.{
  RefreshToken, User, Db, live, Result, ok, err, M, read, query, exec, one, unique_violation,
  fk_violation,
}

abbrev pub new_token : ℕ → String → String → ℕ → RefreshToken
new_token now id user_id expires_at = record {
  id = id;
  user_id = user_id;
  status = true;
  expires_at = expires_at;
  created_at = now;
  modified_at = none;
  removed_at = none;
}

unfoldable pub insert_token : String → String → ℕ → ℕ → Db → Result RefreshToken × Db
insert_token id user_id expires_at now db =
    if exists (λ (t : RefreshToken). str_eq t.id id) db.refresh_tokens
    then (err unique_violation, db)
    else if exists (λ (u : User). str_eq u.id user_id) db.users
    then (
      ok (new_token now id user_id expires_at),
      record db { refresh_tokens = new_token now id user_id expires_at ∷ db.refresh_tokens },
    )
    else (err fk_violation, db)

unfoldable pub create_refresh_token : String → String → ℕ → M RefreshToken
unfolding insert_token
create_refresh_token id user_id expires_at = query (insert_token id user_id expires_at)

abbrev pub is_active_token : String → RefreshToken → Bool
is_active_token id t = str_eq t.id id && live t.status t.removed_at

abbrev pub extended : ℕ → ℕ → RefreshToken → RefreshToken
extended now expires_at t = record t { expires_at = expires_at; modified_at = some now }

unfoldable pub extend_refresh_token : String → ℕ → M (Unit {0})
extend_refresh_token id expires_at = exec (λ now db. record db {
  refresh_tokens = update_where (is_active_token id) (extended now expires_at) db.refresh_tokens;
})

unfoldable pub find_refresh_token_by_id : String → M RefreshToken
find_refresh_token_by_id id =
    read (λ now db. one (find_first (is_active_token id) db.refresh_tokens))

abbrev pub revoked : ℕ → RefreshToken → RefreshToken
revoked now t = record t { status = false; removed_at = some now; modified_at = some now }

abbrev pub is_unremoved_token_of : String → RefreshToken → Bool
is_unremoved_token_of user_id t = str_eq t.user_id user_id && is_none t.removed_at

unfoldable pub revoke_all_refresh_tokens_by_user_id : String → M (Unit {0})
revoke_all_refresh_tokens_by_user_id user_id = exec (λ now db. record db {
  refresh_tokens = update_where (is_unremoved_token_of user_id) (revoked now) db.refresh_tokens;
})

abbrev pub is_unremoved_token : String → RefreshToken → Bool
is_unremoved_token id t = str_eq t.id id && is_none t.removed_at

unfoldable pub revoke_refresh_token : String → M (Unit {0})
revoke_refresh_token id = exec (λ now db. record db {
  refresh_tokens = update_where (is_unremoved_token id) (revoked now) db.refresh_tokens;
})
