-- ===== src/Examples/Logins.antt =====
-- A login whose state comes back to the callback.
use news_feed_backend.Prelude.{
  ℕ, ◌+◌, ◌*◌, String, str_eq, str_eq_iff, ◌≡◌, ◌∙◌, refl, sym, ap, subst, Option, none, some,
  some-injective, List, [], ◌∷◌, ltb, exists, Bool-cases, ◌⊎◌, inl, inr, if◌then◌else◌, arith,
}
use news_feed_backend.Store.{ok, err, user_not_found, new_uuid}
use news_feed_backend.Endpoints.Reply.{respond}
use news_feed_backend.Oauth.States.{
  StateClaims, state_expiry, numeric_date, new_claims, generate, validate,
}
use news_feed_backend.Oauth.Login.{
  Location, error_query, is_allowed_redirect_uri, google_login, google_callback,
}
use news_feed_backend.Oauth.Redirects.{IsIssued, IsListed, google_callback-IsListed}
use news_feed_backend.Oauth.Lifetime.{claims_at, validate-generate}
use news_feed_backend.Examples.Data.{small_world}

abbrev back : String
back = "https://client.example/back"

abbrev signed_claims : StateClaims
signed_claims = claims_at back "n1" 10

-- The one text that verifies, until it expires.
abbrev verify_one : ℕ → String → Option StateClaims
verify_one now state =
    if str_eq state "state"
    then if ltb now (signed_claims.expires_at * 1_000_000) then some signed_claims else none
    else none

abbrev allowlist : List String
allowlist = back ∷ []

-- States that are written as the redirect URI that they carry.
abbrev uri_of : StateClaims → String
uri_of c = c.redirect_uri

abbrev verify_back : ℕ → String → Option StateClaims
verify_back now state = if str_eq state back then some signed_claims else none

abbrev same_text : String → String
same_text s = s

verify_back_lem :
    (now : ℕ) (s : String) (c : StateClaims)
    → verify_back now s ≡ some c
    → (s ≡ back) × (c.redirect_uri ≡ back)
verify_back_lem now s c e = elim (Bool-cases (str_eq s back)) [
  | inl hit ↦ (
    (str_eq_iff s back).0 hit,
    sym (ap (λ (d : StateClaims). d.redirect_uri) (some-injective signed_claims c (rw hit at e))),
  )
  | inr miss ↦ absurd (nothing (rw miss at e))
]
  where
    nothing : none ≡ some c → ⊥
    nothing e = ground arith

back-IsIssued : IsIssued same_text uri_of allowlist back
unfolding google_login generate new_claims new_uuid is_allowed_redirect_uri exists respond
back-IsIssued = record { uri = back; at = small_world; status = 307; answered = refl }

unforged :
    (now : ℕ) (s : String) (c : StateClaims)
    → verify_back now s ≡ some c
    → (c.redirect_uri ≡ "") ⊎ IsIssued same_text uri_of allowlist s
unforged now s c e =
    inr (
      subst (IsIssued same_text uri_of allowlist) (sym (verify_back_lem now s c e).0) back-IsIssued)

faithful :
    (now : ℕ) (c d : StateClaims)
    → verify_back now (uri_of c) ≡ some d
    → d.redirect_uri ≡ c.redirect_uri
faithful now c d e = let h = verify_back_lem now (uri_of c) d e in h.1 ∙ sym h.0

abbrev denied : Location
denied = record { base = back; carried = error_query "access_denied" }

google_callback-IsListed_example : IsListed allowlist "https://client.example/back"
unfolding google_callback validate
google_callback-IsListed_example =
    google_callback-IsListed verify_back 30 5 same_text uri_of allowlist
      "https://client.example/back" "access_denied" "" (err user_not_found) small_world 307 denied
      unforged faithful (λ s t e. e) refl

validate-generate_example :
    (state : String) × (((generate (λ c. "state") back small_world).0 ≡ ok state)
      × ((later : ℕ)
          → validate verify_one later state ≡ (
              if ltb later (numeric_date (10 + state_expiry) * 1_000_000)
              then some back
              else none)))
validate-generate_example =
    validate-generate (λ c. "state") verify_one back "n1" small_world
      (some "n2" ∷ some "n3" ∷ some "n4" ∷ []) (λ now. refl) refl refl refl
