-- ===== src/Oauth/Lifetime.antt =====
-- How long a state is good.
use news_feed_backend.Prelude.{
  ℕ, ◌+◌, ◌*◌, String, str_eq, ◌≡◌, refl, Bool, true, false, Option, none, some, List, ◌∷◌, ltb,
  if◌then◌else◌,
}
use news_feed_backend.Store.{World, ok, new_uuid}
use news_feed_backend.Oauth.States.{
  StateClaims, state_expiry, numeric_date, new_claims, generate, bound_uri, validate,
}

-- What is signed for a redirect URI at a time.
abbrev pub claims_at : String → String → ℕ → StateClaims
claims_at uri nonce now = record {
  redirect_uri = uri;
  nonce = nonce;
  expires_at = numeric_date (now + state_expiry);
  issued_at = numeric_date now;
}

-- When an id can be generated, a login gets a state that brings back its redirect URI for the ten
-- minutes of Expiry, counted in whole seconds, and nothing from then on, if the library verifies
-- what it has signed until the second of its expiry and the signed text is not empty.
pub validate-generate :
    (sign : StateClaims → String) (verify : ℕ → String → Option StateClaims) (uri nonce : String)
    (w : World) (rest : List (Option String))
    → ((now : ℕ)
        → verify now (sign (claims_at uri nonce w.now)) ≡ (
            if ltb now ((claims_at uri nonce w.now).expires_at * 1_000_000)
            then some (claims_at uri nonce w.now)
            else none))
    → str_eq (sign (claims_at uri nonce w.now)) "" ≡ false
    → str_eq uri "" ≡ false
    → w.uuids ≡ some nonce ∷ rest
    → (state : String) × (((generate sign uri w).0 ≡ ok state)
        × ((later : ℕ)
            → validate verify later state ≡ (
                if ltb later (numeric_date (w.now + state_expiry) * 1_000_000)
                then some uri
                else none)))
unfolding generate new_claims new_uuid validate
validate-generate sign verify uri nonce w rest verified signed named given = (
  sign (claims_at uri nonce w.now),
  (
    rw given refl,
    λ later.
        rw (signed, verified later)
          (go (ltb later (numeric_date (w.now + state_expiry) * 1_000_000))),
  ),
)
  where
    go :
        (b : Bool)
        → bound_uri (if b then some (claims_at uri nonce w.now) else none)
          ≡ (if b then some uri else none)
    go true = rw named refl
    go false = refl
