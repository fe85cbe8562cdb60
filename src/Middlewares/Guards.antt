-- ===== src/Middlewares/Guards.antt =====
-- What the guards let through.
use news_feed_backend.Prelude.{
  ℕ, ◌≤◌, String, str_eq, ◌≡◌, ◌∙◌, refl, sym, ap, subst, ◌⊎◌, inl, inr, Bool, true, false, Option,
  none, some, if◌then◌else◌, find_first, arith, Bool-cases,
}
use news_feed_backend.Store.{
  Db, Error, Result, ok, err, World, RefreshToken, System, User, with_transaction, raise,
  refresh_token_expired, refresh_token_not_found, user_not_found, Leads, Keeps-Leads, read-Leads,
  map_err-Leads, with_transaction-Leads, >>=-Leads, raise-Leads, now_is-Keeps, pure-Leads, pure,
  one,
}
use news_feed_backend.Queries.RefreshTokens.{is_active_token, find_refresh_token_by_id}
use news_feed_backend.Queries.Users.{is_active_user, find_user_by_id}
use news_feed_backend.Queries.ControlPanel.{first, get_system}
use news_feed_backend.Controllers.Auth.{Claims}
use news_feed_backend.Controllers.RefreshTokens
use news_feed_backend.Controllers.Users
use news_feed_backend.Controllers.ControlPanel
use news_feed_backend.Middlewares.Sessions.{system-now, check_session-alive}
use news_feed_backend.Middlewares.{
  next, stopped, check_session, is_admin, require_admin, parse_access_token, is_request_from_admin,
  app_status_guard, admin_of, admin_gate, or_false, admin_behind, admin_with, maintenance_gate,
  status_read,
}

module _ (db : Db) where
  -- A read that found something, and changed nothing.
  abbrev Found : {A : Type 0} → Option A → A → Db → Type 0
  Found o a db' = (o ≡ some a) × (db' ≡ db)

  one-some : {A : Type 0} {o : Option A} {a : A} → one o ≡ ok a → o ≡ some a
  one-some {o = none} e = absurd (ground arith)
  one-some {o = some b} e = cc

  user-Found :
      (id : String)
      → Leads
          (λ d. d ≡ db)
          (Found (find_first (is_active_user id) db.users))
          (with_transaction (Users.find_user_by_id id))
  unfolding Users.find_user_by_id find_user_by_id
  user-Found id = with_transaction-Leads _ _ (
      map_err-Leads _ _ _ (
        read-Leads _ _ _ λ now d u same e.
          (sym (ap (λ (x : Db). find_first (is_active_user id) x.users) same) ∙ one-some e, same)))

  system-Found : Leads (λ d. d ≡ db) (Found (first db.system)) (with_transaction ControlPanel.get)
  unfolding ControlPanel.get get_system
  system-Found = with_transaction-Leads _ _ (
      map_err-Leads _ _ _ (
        read-Leads _ _ _
          λ now d u same e. (sym (ap (λ (x : Db). first x.system) same) ∙ one-some e, same)))

  session-Found :
      (id : String)
      → Leads
          (λ d. d ≡ db)
          (Found (find_first (is_active_token id) db.refresh_tokens))
          (check_session id)
  unfolding check_session RefreshTokens.find_by_id find_refresh_token_by_id
  session-Found id = checked (str_eq id "")
    where
      Held : RefreshToken → Db → Type 0
      Held = Found (find_first (is_active_token id) db.refresh_tokens)

      unless_expired-Leads :
          (t : RefreshToken) (now : ℕ) (b : Bool)
          → Leads (Held t) Held (if b then raise refresh_token_expired else pure t)
      unless_expired-Leads t now true = raise-Leads (Held t) Held refresh_token_expired
      unless_expired-Leads t now false = pure-Leads (Held t) Held t (λ d h. h)

      held : Leads (λ d. d ≡ db) Held (RefreshTokens.find_by_id id)
      held =
          >>=-Leads (λ d. d ≡ db) Held Held
            (map_err-Leads _ _ _ (
              read-Leads _ _ _ λ now d t same e. (
                sym (ap (λ (x : Db). find_first (is_active_token id) x.refresh_tokens) same)
                    ∙ one-some e,
                same,
              )))
            λ t.
              >>=-Leads (Held t) (λ _. Held t) Held (Keeps-Leads (Held t) (now_is-Keeps (Held t)))
                λ now. unless_expired-Leads t now _

      checked :
          (b : Bool)
          → Leads
              (λ d. d ≡ db)
              Held
              (if b
                then raise refresh_token_not_found
                else with_transaction (RefreshTokens.find_by_id id))
      checked true = raise-Leads (λ d. d ≡ db) Held refresh_token_not_found
      checked false = with_transaction-Leads (λ d. d ≡ db) Held held

-- The application is on.
abbrev pub IsServing : Db → Type 0
IsServing db = (s : System) × ((first db.system ≡ some s) × (s.app_status ≡ true))

-- The request carries a token that parses, of a session that is not revoked and has not expired at
-- that time, of an active user who is an administrator.
abbrev pub IsFromAdmin : (String → Option Claims) → String → Db → ℕ → Type 0
IsFromAdmin parse header db now =
    (c : Claims) × ((parse_access_token parse header ≡ some c)
      × (((t : RefreshToken) × ((find_first (is_active_token c.refresh_token_id) db.refresh_tokens
                ≡ some t)
              × (now ≤ t.expires_at)))
          × ((u : User) × ((find_first (is_active_user c.user_id) db.users ≡ some u)
                × (u.admin ≡ true)))))

no_next : {A B : Type 0} {n : ℕ} {a : A} → stopped n ≡ next a → B
no_next e = absurd (ground arith)

denied : (e : Error) (w : World) → or_false (admin_of (err e, w)) ≡ (false, w)
denied user_not_found w = refl
denied _ w = refl

module _ (parse : String → Option Claims) (header : String) (db : Db) (now : ℕ) where
  user_gate :
      (c : Claims) (r : Result User × World)
      → ((u : User) → r.0 ≡ ok u → find_first (is_active_user c.user_id) db.users ≡ some u)
      → (maintenance_gate parse (or_false (admin_of r))).0 ≡ next tt
      → (u : User) × ((find_first (is_active_user c.user_id) db.users ≡ some u) × (u.admin ≡ true))
  user_gate c (ok u, w) k h = elim (Bool-cases u.admin) [
    | inl admin ↦ (u, (k u refl, admin))
    | inr other ↦ no_next (rw other at h)
  ]
  user_gate c (err e, w) k h = no_next (rw (denied e w) at h)

  admin_row :
      (c : Claims) (w : World)
      → w.db ≡ db
      → (maintenance_gate parse (or_false (is_admin c.user_id w))).0 ≡ next tt
      → (u : User) × ((find_first (is_active_user c.user_id) db.users ≡ some u) × (u.admin ≡ true))
  unfolding is_admin
  admin_row c w same h =
      user_gate c (with_transaction (Users.find_user_by_id c.user_id) w)
        (λ u e. ((user-Found db c.user_id).at w same u e).0) h

  session_row :
      (c : Claims) (r : Result RefreshToken × World)
      → ((t : RefreshToken)
          → r.0 ≡ ok t
          → Found db (find_first (is_active_token c.refresh_token_id) db.refresh_tokens) t r.1.db)
      → ((t : RefreshToken) → r.0 ≡ ok t → now ≤ t.expires_at)
      → (maintenance_gate parse (admin_behind parse c r)).0 ≡ next tt
      → ((t : RefreshToken) × ((find_first (is_active_token c.refresh_token_id) db.refresh_tokens
              ≡ some t)
            × (now ≤ t.expires_at)))
        × ((u : User) × ((find_first (is_active_user c.user_id) db.users ≡ some u)
              × (u.admin ≡ true)))
  session_row c (ok t, w) k alive h =
      ((t, ((k t refl).0, alive t refl)), admin_row c w (k t refl).1 h)
  session_row c (err e, w) k alive h = no_next h

  request_rows :
      (o : Option Claims) (w : World)
      → parse_access_token parse header ≡ o
      → w.db ≡ db
      → w.now ≡ now
      → (maintenance_gate parse (admin_with parse o w)).0 ≡ next tt
      → IsFromAdmin parse header db now
  request_rows none w e same then_is h = no_next h
  request_rows (some c) w e same then_is h = (
    c,
    (
      e,
      session_row c (check_session c.refresh_token_id w)
          ((session-Found db c.refresh_token_id).at w same)
          (λ t found.
            subst (λ n. n ≤ t.expires_at) then_is
              (check_session-alive c.refresh_token_id w t found))
          h,
    ),
  )

  system_row :
      (r : Result System × World)
      → ((s : System) → r.0 ≡ ok s → Found db (first db.system) s r.1.db)
      → r.1.now ≡ now
      → (status_read parse header r).0 ≡ next tt
      → IsServing db ⊎ IsFromAdmin parse header db now
  unfolding is_request_from_admin
  system_row (err e, w) k then_is h = no_next h
  system_row (ok s, w) k then_is h = elim (Bool-cases s.app_status) [
    | inl on ↦ inl (s, ((k s refl).0, on))
    | inr off ↦ inr (request_rows _ w refl (k s refl).1 then_is (rw off at h))
  ]

-- Whatever statements fail, the maintenance guard lets a request through only while the application
-- is on, or for an active administrator with a session that is neither revoked nor expired at that
-- time.
pub app_status_guard-closed :
    (parse : String → Option Claims) (header : String) (w : World)
    → (app_status_guard parse header w).0 ≡ next tt
    → IsServing w.db ⊎ IsFromAdmin parse header w.db w.now
unfolding app_status_guard
app_status_guard-closed parse header w h =
    system_row parse header w.db w.now (with_transaction ControlPanel.get w)
      ((system-Found w.db).at w refl) (system-now w) h

-- Whatever statements fail, a route for administrators is reached only with the claims of an active
-- user who is one in the database at that moment.
pub require_admin-closed :
    (claims passed : Claims) (w : World)
    → (require_admin claims w).0 ≡ next passed
    → (u : User) × ((find_first (is_active_user claims.user_id) w.db.users ≡ some u)
        × (u.admin ≡ true))
unfolding require_admin is_admin
require_admin-closed claims passed w h =
    go (with_transaction (Users.find_user_by_id claims.user_id) w)
      (λ u e. ((user-Found w.db claims.user_id).at w refl u e).0) h
  where
    refused :
        (e : Error) (v : World) {B : Type 0}
        → (admin_gate claims (admin_of (err e, v))).0 ≡ next passed
        → B
    refused user_not_found v e = no_next e
    refused _ v e = no_next e

    go :
        (r : Result User × World)
        → ((u : User) → r.0 ≡ ok u → find_first (is_active_user claims.user_id) w.db.users ≡ some u)
        → (admin_gate claims (admin_of r)).0 ≡ next passed
        → (u : User) × ((find_first (is_active_user claims.user_id) w.db.users ≡ some u)
            × (u.admin ≡ true))
    go (ok u, v) k e = elim (Bool-cases u.admin) [
      | inl admin ↦ (u, (k u refl, admin))
      | inr other ↦ no_next (rw other at e)
    ]
    go (err x, v) k e = refused x v e
