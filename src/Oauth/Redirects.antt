-- ===== src/Oauth/Redirects.antt =====
-- Where the login may lead.
use news_feed_backend.Prelude.{
  ℕ, String, str_eq, str_eq_iff, ◌≡◌, ◌∙◌, refl, sym, ap, subst, true, false, Option, none, some,
  some-injective, List, exists, ◌⊎◌, inl, inr, Bool-cases, arith,
}
use news_feed_backend.Store.{
  World, Result, ok, err, pure, then_do, Leads, Keeps-Leads, >>=-Leads, pure-Leads, new_uuid-Keeps,
  now_is-Keeps,
}
use news_feed_backend.Controllers.Auth.{GoogleUserInfo, AuthResponse, handle_google_callback}
use news_feed_backend.Endpoints.Reply.{Reply, done, failed, respond, answer}
use news_feed_backend.Reading.FeedSafety.{respond_ok}
use news_feed_backend.Oauth.States.{StateClaims, new_claims, generate, bound_uri, validate}
use news_feed_backend.Oauth.Login
use news_feed_backend.Oauth.Login.{
  Location, is_allowed_redirect_uri, state_url, google_login, google_callback,
}

claims-Leads :
    (uri : String) → Leads (λ db. Unit {0}) (λ c db. c.redirect_uri ≡ uri) (new_claims uri)
unfolding new_claims
claims-Leads uri =
    >>=-Leads _ (λ nonce db. Unit {0}) _ (Keeps-Leads _ (new_uuid-Keeps _))
      λ nonce.
        >>=-Leads _ (λ now db. Unit {0}) _ (Keeps-Leads _ (now_is-Keeps _))
          λ now. pure-Leads _ _ _ (λ db h. refl)

-- The URI is one of the allowlist.
abbrev pub IsListed : List String → String → Type 0
IsListed allowed uri = exists (λ (a : String). str_eq uri a) allowed ≡ true

allowed-IsListed :
    (allowed : List String) (uri : String)
    → is_allowed_redirect_uri uri allowed ≡ true
    → IsListed allowed uri
unfolding is_allowed_redirect_uri
allowed-IsListed allowed uri h = elim (Bool-cases (str_eq uri "")) [
  | inl empty ↦ absurd (refused (rw empty at h))
  | inr set ↦ rw set at h
]
  where
    refused : false ≡ true → ⊥
    refused e = ground arith

module _ (auth_code_url : String → String) (sign : StateClaims → String)
    (allowed : List String) where
  -- GoogleLogin has sent some client to Google with the state.
  pub record IsIssued (state : String) : Type 0 where
    pub uri : String
    pub at : World
    pub status : ℕ
    pub answered :
        (google_login auth_code_url sign allowed uri at).0 ≡ done status (auth_code_url state)

  -- The state carries an URI of the allowlist.
  abbrev Carries : String → String → Type 0
  Carries uri url = (c : StateClaims) × ((c.redirect_uri ≡ uri) × (url ≡ auth_code_url (sign c)))

  state_url-Leads :
      (uri : String)
      → Leads (λ db. Unit {0}) (λ url db. Carries uri url) (state_url auth_code_url sign uri)
  unfolding generate
  state_url-Leads uri =
      >>=-Leads _ (λ s db. (c : StateClaims) × ((c.redirect_uri ≡ uri) × (s ≡ sign c))) _
        (>>=-Leads _ (λ c db. c.redirect_uri ≡ uri) _ (claims-Leads uri)
          (λ c. pure-Leads _ _ (sign c) (λ db h. (c, (h, refl)))))
        (λ s. pure-Leads _ _ (auth_code_url s) (λ db h. (h.0, (h.1.0, ap auth_code_url h.1.1))))

  issued_uri :
      (state : String) (h : IsIssued state)
      → IsListed allowed h.uri × Carries h.uri (auth_code_url state)
  unfolding google_login
  issued_uri state h = elim (Bool-cases (is_allowed_redirect_uri h.uri allowed)) [
    | inl hit ↦ (
      allowed-IsListed allowed h.uri hit,
      (state_url-Leads h.uri).at h.at tt (auth_code_url state) (
          respond_ok 307 (λ e. 500) (state_url auth_code_url sign h.uri) h.at h.status
            (auth_code_url state) (rw hit at h.answered)),
    )
    | inr miss ↦ absurd (refused (rw miss at h.answered))
  ]
    where
      refused :
          {n : ℕ} → ◌≡◌ {A = Reply String} (failed n) (done h.status (auth_code_url state)) → ⊥
      refused e = ground arith

module _ (verify : ℕ → String → Option StateClaims) (expiry lifetime : ℕ) where
  done_inj : {n m : ℕ} {x y : Location} → ◌≡◌ {A = Reply Location} (done n x) (done m y) → x ≡ y
  done_inj e = cc

  to_base :
      (uri : String) (info : Result GoogleUserInfo) (w : World) (status : ℕ) (location : Location)
      → (respond 307 (λ e. 401) (Login.with_tokens verify expiry lifetime uri info) w).0
        ≡ done status location
      → location.base ≡ uri
  unfolding respond
  to_base uri info w status location = go (handle_google_callback expiry lifetime info w)
    where
      go :
          (r : Result AuthResponse × World)
          → (answer 307
              (λ e. 401)
              (then_do
                (λ response. pure (record { base = uri; carried = Login.token_fragment response }))
                r)).0
            ≡ done status location
          → location.base ≡ uri
      go (ok response, v) e = sym (ap (λ (l : Location). l.base) (done_inj e))
      go (err x, v) e = absurd (ground arith)

  bounce-base :
      (oauth_error code uri : String) (info : Result GoogleUserInfo) (w : World) (status : ℕ)
      (location : Location)
      → (Login.bounce verify expiry lifetime oauth_error code info (some uri) w).0
        ≡ done status location
      → location.base ≡ uri
  bounce-base oauth_error code uri info w status location e =
      elim (Bool-cases (str_eq oauth_error "")) [
        | inl empty ↦ elim (Bool-cases (str_eq code "")) [
          | inl missing ↦ absurd (refused (rw (empty, missing) at e))
          | inr given ↦ to_base uri info w status location (rw (empty, given) at e)
        ]
        | inr told ↦ sym (ap (λ (l : Location). l.base) (done_inj (rw told at e)))
      ]
    where
      refused : {n : ℕ} → ◌≡◌ {A = Reply Location} (failed n) (done status location) → ⊥
      refused e = ground arith

  of_verified :
      (o : Option StateClaims) (uri : String)
      → bound_uri o ≡ some uri
      → (c : StateClaims) × ((o ≡ some c)
          × ((c.redirect_uri ≡ uri) × (str_eq c.redirect_uri "" ≡ false)))
  of_verified none uri e = absurd (ground arith)
  of_verified (some c) uri e = elim (Bool-cases (str_eq c.redirect_uri "")) [
    | inl empty ↦ absurd (nothing (rw empty at e))
    | inr set ↦ (c, (refl, (some-injective c.redirect_uri uri (rw set at e), set)))
  ]
    where
      nothing : none ≡ some uri → ⊥
      nothing e = ground arith

  -- The callback redirects only to a URI of the allowlist, whatever state, error, code and answer
  -- of Google it gets. This needs that no text verifies but the states that GoogleLogin has sent to
  -- Google, with that allowlist, and texts without a redirect URI, as the access tokens are, which
  -- are signed with the same secret; that what verifies has the redirect URI that was signed; and
  -- that different states have different URLs.
  pub google_callback-IsListed :
      (auth_code_url : String → String) (sign : StateClaims → String) (allowed : List String)
      (state oauth_error code : String) (info : Result GoogleUserInfo) (w : World) (status : ℕ)
      (location : Location)
      → ((now : ℕ) (s : String) (c : StateClaims)
          → verify now s ≡ some c
          → (c.redirect_uri ≡ "") ⊎ IsIssued auth_code_url sign allowed s)
      → ((now : ℕ) (c d : StateClaims)
          → verify now (sign c) ≡ some d
          → d.redirect_uri ≡ c.redirect_uri)
      → ((s t : String) → auth_code_url s ≡ auth_code_url t → s ≡ t)
      → (google_callback verify expiry lifetime state oauth_error code info w).0
        ≡ done status location
      → IsListed allowed location.base
  unfolding google_callback validate
  google_callback-IsListed auth_code_url sign allowed state oauth_error code info w status location
        unforged faithful injective e =
      go (validate verify w.now state) refl e
    where
      of_issued :
          (c : StateClaims)
          → verify w.now state ≡ some c
          → IsIssued auth_code_url sign allowed state
          → IsListed allowed c.redirect_uri
      of_issued c h issued =
          let found = issued_uri auth_code_url sign allowed state issued in
          let same : state ≡ sign found.1.0 = injective state (sign found.1.0) found.1.1.1 in
          let uri : c.redirect_uri ≡ issued.uri =
            faithful w.now found.1.0 c (ap (verify w.now) (sym same) ∙ h) ∙ found.1.1.0 in
          subst (IsListed allowed) (sym uri) found.0

      listed :
          (c : StateClaims)
          → verify w.now state ≡ some c
          → str_eq c.redirect_uri "" ≡ false
          → IsListed allowed c.redirect_uri
      listed c h set = elim (unforged w.now state c h) [
        | inl empty ↦ absurd (refused (sym ((str_eq_iff c.redirect_uri "").1 empty) ∙ set))
        | inr issued ↦ of_issued c h issued
      ]
        where
          refused : true ≡ false → ⊥
          refused e = ground arith

      verified : (uri : String) → validate verify w.now state ≡ some uri → IsListed allowed uri
      verified uri h = elim (Bool-cases (str_eq state "")) [
        | inl empty ↦ absurd (nothing (rw empty at h))
        | inr set ↦
            let r = of_verified (verify w.now state) uri (rw set at h) in
            subst (IsListed allowed) r.1.1.0 (listed r.0 r.1.0 r.1.1.1)
      ]
        where
          nothing : none ≡ some uri → ⊥
          nothing e = ground arith

      go :
          (o : Option String)
          → validate verify w.now state ≡ o
          → (Login.bounce verify expiry lifetime oauth_error code info o w).0 ≡ done status location
          → IsListed allowed location.base
      go none h e = absurd (ground arith)
      go (some uri) h e =
          subst (IsListed allowed) (sym (bounce-base oauth_error code uri info w status location e))
            (verified uri h)
