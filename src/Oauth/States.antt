-- ===== src/Oauth/States.antt =====
-- services/oauthstate/oauthstate.go. `sign` is the signing with the secret, `verify` what
-- jwt.ParseWithClaims makes of a state at a time: the claims, if the state is valid then.
use news_feed_backend.Prelude.{ℕ, ◌+◌, ◌/◌, String, str_eq, Option, none, some, if◌then◌else◌}
use news_feed_backend.Store.{M, pure, ◌>>=◌, new_uuid, now_is}

-- stateClaims
pub record StateClaims : Type 0 where
  pub redirect_uri : String
  pub nonce : String
  pub expires_at : ℕ
  pub issued_at : ℕ

-- Expiry: ten minutes, in microseconds.
abbrev pub state_expiry : ℕ
state_expiry = 600_000_000

-- jwt.NewNumericDate: whole seconds.
abbrev pub numeric_date : ℕ → ℕ
numeric_date at = at / 1_000_000

-- The claims that Generate signs.
unfoldable pub new_claims : String → M StateClaims
new_claims redirect_uri = do
  nonce ← new_uuid
  now ← now_is
  pure (record {
    redirect_uri = redirect_uri;
    nonce = nonce;
    expires_at = numeric_date (now + state_expiry);
    issued_at = numeric_date now;
  })

unfoldable pub generate : (StateClaims → String) → String → M String
unfolding new_claims
generate sign redirect_uri = do claims ← new_claims redirect_uri; pure (sign claims)

-- The redirect URI of valid claims.
abbrev pub bound_uri : Option StateClaims → Option String
bound_uri none = none
bound_uri (some claims) = if str_eq claims.redirect_uri "" then none else some claims.redirect_uri

unfoldable pub validate : (ℕ → String → Option StateClaims) → ℕ → String → Option String
validate verify now state = if str_eq state "" then none else bound_uri (verify now state)
