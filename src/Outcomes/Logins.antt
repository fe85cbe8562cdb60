-- ===== src/Outcomes/Logins.antt =====
-- Logins of accounts that have been removed: HandleGoogleCallback of services/controllers/auth.go.
use news_feed_backend.Prelude.{
  ℕ, String, str_eq, ◌≡◌, refl, Bool, true, false, none, List, [], ◌∷◌, exists, find_first,
  Bool-cases, if◌then◌else◌, inl, inr, arith,
}
use news_feed_backend.Store.{
  User, Db, World, Error, Result, ok, err, Leads, Keeps-Leads, with_transaction-Leads, Leads-from,
  raise, map_err-Keeps, read-Keeps, Keeps, >>=-Leads, map_err-Leads, query-Leads, attempt-Leads,
  raise-Leads, new_uuid-Keeps, read, query, answered, faulty,
}
use news_feed_backend.Queries.Users.{
  CreateUserParams, clashes, insert_user, create_user, is_active_google_user,
  find_user_by_google_id,
}
use news_feed_backend.Controllers.Users
use news_feed_backend.Controllers.Auth.{
  GoogleUserInfo, is_user_not_found, AuthResponse, or_create, find_or_create_user, open_session,
  handle_google_callback,
}

-- A row has the Google id, but no active one.
abbrev pub IsGone : String → Db → Type 0
IsGone google_id db =
    (find_first (is_active_google_user google_id) db.users ≡ none)
    × (exists (λ (u : User). str_eq u.google_id google_id) db.users ≡ true)

taken :
    (p : CreateUserParams) (us : List User)
    → exists (λ (u : User). str_eq u.google_id p.google_id) us ≡ true
    → exists (clashes p) us ≡ true
unfolding exists
taken p [] h = absurd (ground arith)
taken p (u ∷ us) h = elim (Bool-cases (str_eq u.google_id p.google_id)) [
  | inl hit ↦ ground (arith, hit)
  | inr miss ↦ ground (arith, taken p us (rw miss at h))
]

-- No result at all.
abbrev Never : {A : Type 0} → A → Db → Type 0
Never a db = ⊥

not_inserted : (p : CreateUserParams) → Leads (IsGone p.google_id) Never (create_user p)
unfolding create_user insert_user
not_inserted p =
    query-Leads _ _ _ (λ now db a h e. absurd (refused (rw (taken p db.users h.1) at e)))
  where
    refused : {x : Error} {a : User} → err x ≡ ok a → ⊥
    refused e = ground arith

module _ (info : GoogleUserInfo) where
  not_created :
      Leads (IsGone info.id) Never (Users.create_user info.id info.email info.name info.picture)
  unfolding Users.create_user
  not_created =
      >>=-Leads _ (λ id. IsGone info.id) _ (Keeps-Leads _ (new_uuid-Keeps _))
        λ id.
          >>=-Leads _ Never _ (map_err-Leads _ _ _ (not_inserted _))
            λ user. record { at = λ w h a e. absurd h }

  IsNotFound : Result User → Type 0
  IsNotFound r = (a : User) → r ≡ ok a → ⊥

  looked_up :
      (w : World) → IsGone info.id w.db → IsNotFound (Users.find_user_by_google_id info.id w).0
  unfolding Users.find_user_by_google_id find_user_by_google_id read query answered IsNotFound
  looked_up w gone = elim (Bool-cases (faulty w.faults)) [
    | inl hit ↦ rw hit (λ a e. ground arith)
    | inr miss ↦ rw (miss, gone.0) (λ a e. ground arith)
  ]

  lookup_kept : Keeps (IsGone info.id) (Users.find_user_by_google_id info.id)
  unfolding Users.find_user_by_google_id find_user_by_google_id
  lookup_kept = map_err-Keeps _ _ (read-Keeps _ _)

  not_made :
      (r : Result User) → Leads (λ db. IsNotFound r × IsGone info.id db) Never (or_create info r)
  unfolding IsNotFound
  not_made (ok a) = record { at = λ w h b e. absurd (h.0 a refl) }
  not_made (err e) = Leads-from _ _ _ (λ db h. h.1) (go (is_user_not_found e))
    where
      go :
          (b : Bool)
          → Leads
              (IsGone info.id)
              Never
              (if b then Users.create_user info.id info.email info.name info.picture else raise e)
      go true = not_created
      go false = raise-Leads _ _ e

  not_opened : (expiry : ℕ) → Leads (IsGone info.id) Never (open_session expiry info)
  unfolding open_session find_or_create_user
  not_opened expiry =
      >>=-Leads _ Never _
        (>>=-Leads _ (λ r db. IsNotFound r × IsGone info.id db) _
          (attempt-Leads _ _ (Users.find_user_by_google_id info.id)
            (λ w h. (looked_up w h, lookup_kept.at w h)))
          not_made)
        λ user. record { at = λ w h a e. absurd h }

  -- A login never succeeds, whatever statements fail, while a removed account has the Google id and
  -- no active one: the UNIQUE constraint on the column counts removed rows, so no new account is
  -- created either.
  pub handle_google_callback-gone :
      (expiry lifetime : ℕ) (w : World)
      → IsGone info.id w.db
      → (r : AuthResponse) → ¬ ((handle_google_callback expiry lifetime (ok info) w).0 ≡ ok r)
  unfolding handle_google_callback
  handle_google_callback-gone expiry lifetime w gone r done =
      (>>=-Leads _ Never Never (with_transaction-Leads _ _ (not_opened expiry))
          λ session. record { at = λ v h a e. absurd h }).at
        w gone r done
