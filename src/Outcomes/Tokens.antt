-- ===== src/Outcomes/Tokens.antt =====
-- The life of a refresh token: services/controllers/refresh_tokens.go.
use news_feed_backend.Prelude.{
  ℕ, ◌+◌, String, str_eq, str_eq_iff, ◌≡◌, refl, true, false, Option, some, List, [], ◌∷◌,
  if◌then◌else◌, ltb, exists, find_first, find_first-update_where-none, arith, Bool-cases, inl, inr,
}
use news_feed_backend.Store.{
  RefreshToken, User, Db, World, ok, err, refresh_token_not_found, refresh_token_expired, query,
  read, exec, answered, new_uuid,
}
use news_feed_backend.Queries.RefreshTokens.{
  new_token, is_active_token, is_unremoved_token, revoked, create_refresh_token, insert_token,
  find_refresh_token_by_id, revoke_refresh_token,
}
use news_feed_backend.Controllers.RefreshTokens

-- A world in which no statement fails, and the next id is given.
abbrev pub calm : Db → ℕ → List (Option String) → World
calm db now uuids = record { db = db; now = now; faults = []; uuids = uuids }

unless_expired_lem :
    (t : RefreshToken) (now : ℕ) (w : World)
    → (RefreshTokens.unless_expired t now w).0
      ≡ (if ltb t.expires_at now then err refresh_token_expired else ok t)
unless_expired_lem t now w = elim (Bool-cases (ltb t.expires_at now)) [
  | inl past ↦ rw past refl
  | inr before ↦ rw before refl
]

-- When no statement fails, the id is free and the user exists, a token is made. It is found until
-- `expiry` has passed and refused as expired from then on; when it has been revoked, it is not
-- found.
pub token_life :
    (expiry now later : ℕ) (id user_id : String) (db : Db)
    → exists (λ (t : RefreshToken). str_eq t.id id) db.refresh_tokens ≡ false
    → exists (λ (u : User). str_eq u.id user_id) db.users ≡ true
    → (let made = RefreshTokens.create expiry user_id (calm db now (some id ∷ [])) in
        let then_world = record made.1 { now = later } in
        (made.0 ≡ ok (new_token now id user_id (now + expiry)))
        × (((RefreshTokens.find_by_id id then_world).0 ≡ (
              if ltb (now + expiry) later
              then err refresh_token_expired
              else ok (new_token now id user_id (now + expiry))))
            × ((RefreshTokens.find_by_id id (RefreshTokens.revoke id then_world).1).0
                ≡ err refresh_token_not_found)))
unfolding RefreshTokens.create RefreshTokens.find_by_id RefreshTokens.revoke create_refresh_token
    insert_token find_refresh_token_by_id revoke_refresh_token query read exec answered new_uuid
    find_first
token_life expiry now later id user_id db free there =
    let self : str_eq id id ≡ true = (str_eq_iff id id).1 refl in
    let tokens = new_token now id user_id (now + expiry) ∷ db.refresh_tokens in
    let unfound =
      find_first-update_where-none (is_active_token id) (is_unremoved_token id) (revoked later)
        (λ t hit. ground arith) (λ t miss. ground arith) tokens in
    rw (free, there) (refl, (rw self (unless_expired_lem _ later _), rw unfound refl))
