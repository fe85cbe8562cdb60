-- ===== src/Middlewares/Sessions.antt =====
-- The session of a token, and the time at which a guard looks at it.
use news_feed_backend.Prelude.{
  ℕ, ◌≤◌, String, str_eq, ◌≡◌, refl, subst, ltb, inl, inr, Bool, true, false, Option, none, some,
  find_first, arith, Bool-cases,
}
use news_feed_backend.Store.{
  Db, Error, Result, ok, err, World, RefreshToken, with_transaction, refresh_token_expired,
  refresh_token_not_found, system_not_found, one, M, map_err, on_error, then_do, read, query,
  answered, begun, finish, committed, faulty, rest_of,
}
use news_feed_backend.Queries.RefreshTokens.{is_active_token, find_refresh_token_by_id}
use news_feed_backend.Queries.ControlPanel.{first, get_system}
use news_feed_backend.Controllers.RefreshTokens
use news_feed_backend.Controllers.Errors.{when_missing}
use news_feed_backend.Controllers.ControlPanel
use news_feed_backend.Middlewares.{check_session}

-- A statement that reads does not take time, and neither does a transaction of it.
read-now : {A : Type 0} (f : ℕ → Db → Result A) (w : World) → (read f w).1.now ≡ w.now
unfolding read query answered
read-now f w = go (faulty w.faults)
  where
    go :
        (b : Bool)
        → (answered (record w { faults = rest_of w.faults }) (f w.now w.db, w.db) b).1.now ≡ w.now
    go true = refl
    go false = refl

map_err-now :
    {A : Type 0} (f : Error → Error) (m : M A) (w : World)
    → (m w).1.now ≡ w.now
    → (map_err f m w).1.now ≡ w.now
map_err-now f m w h = go (m w) h
  where
    go : {A : Type 0} (r : Result A × World) → r.1.now ≡ w.now → (on_error f r).1.now ≡ w.now
    go (ok a, v) h = h
    go (err e, v) h = h

begun-now :
    {A : Type 0} (m : M A) (b : Bool) (w : World)
    → (m w).1.now ≡ w.now
    → (begun m b w).1.now ≡ w.now
unfolding begun finish committed
begun-now m true w h = refl
begun-now m false w h = ended w.db (m w) h
  where
    closed :
        {A : Type 0} (before : Db) (a : A) (v : World) (b : Bool)
        → v.now ≡ w.now
        → (committed before a v b).1.now ≡ w.now
    closed before a v true h = h
    closed before a v false h = h

    ended :
        {A : Type 0} (before : Db) (r : Result A × World)
        → r.1.now ≡ w.now
        → (finish before r).1.now ≡ w.now
    ended before (ok a, v) h = closed before a (record v { faults = rest_of v.faults }) _ h
    ended before (err e, v) h = h

get-now : (w : World) → (ControlPanel.get w).1.now ≡ w.now
unfolding ControlPanel.get get_system
get-now w =
    map_err-now (when_missing system_not_found) get_system w
      (read-now (λ now db. one (first db.system)) w)

pub system-now : (w : World) → (with_transaction ControlPanel.get w).1.now ≡ w.now
unfolding with_transaction
system-now w =
    begun-now ControlPanel.get (faulty w.faults) (record w { faults = rest_of w.faults })
      (get-now (record w { faults = rest_of w.faults }))

-- A transaction that succeeds has a body that did.
begun_ok :
    {A : Type 0} (m : M A) (b : Bool) (w : World) (a : A) → (begun m b w).0 ≡ ok a → (m w).0 ≡ ok a
unfolding begun finish committed
begun_ok m true w a e = absurd (ground arith)
begun_ok m false w a e = ended w.db (m w) a e
  where
    closed :
        {A : Type 0} (before : Db) (b : A) (v : World) (c : Bool) (a : A)
        → (committed before b v c).0 ≡ ok a
        → ok b ≡ ok a
    closed before b v true a e = absurd (ground arith)
    closed before b v false a e = e

    ended :
        {A : Type 0} (before : Db) (r : Result A × World) (a : A)
        → (finish before r).0 ≡ ok a
        → r.0 ≡ ok a
    ended before (ok b, v) a e = closed before b (record v { faults = rest_of v.faults }) _ a e
    ended before (err x, v) a e = absurd (ground arith)

-- A session that is found has not expired.
find_by_id-alive :
    (id : String) (w : World) (t : RefreshToken)
    → (RefreshTokens.find_by_id id w).0 ≡ ok t
    → w.now ≤ t.expires_at
unfolding RefreshTokens.find_by_id find_refresh_token_by_id read query answered
find_by_id-alive id w t e =
    by_fault (faulty w.faults) (find_first (is_active_token id) w.db.refresh_tokens) e
  where
    alive :
        (found : RefreshToken) (v : World)
        → (RefreshTokens.unless_expired found w.now v).0 ≡ ok t
        → w.now ≤ t.expires_at
    alive found v e = elim (Bool-cases (ltb found.expires_at w.now)) [
      | inl past ↦ absurd (raised (rw past at e))
      | inr before ↦
          let within : w.now ≤ found.expires_at = ground (arith, before) in
          subst (λ (x : RefreshToken). w.now ≤ x.expires_at) (ok_inj (rw before at e)) within
    ]
      where
        raised : err refresh_token_expired ≡ ok t → ⊥
        raised e = ground arith

        ok_inj : {x : RefreshToken} → ok x ≡ ok t → x ≡ t
        ok_inj e = cc

    by_fault :
        (b : Bool) (o : Option RefreshToken)
        → (then_do
            (λ found v. RefreshTokens.unless_expired found v.now v)
            (on_error
              (when_missing refresh_token_not_found)
              (answered (record w { faults = rest_of w.faults }) (one o, w.db) b))).0
          ≡ ok t
        → w.now ≤ t.expires_at
    by_fault true o e = absurd (ground arith)
    by_fault false none e = absurd (ground arith)
    by_fault false (some found) e = alive found _ e

pub check_session-alive :
    (id : String) (w : World) (t : RefreshToken)
    → (check_session id w).0 ≡ ok t
    → w.now ≤ t.expires_at
unfolding check_session with_transaction
check_session-alive id w t e = elim (Bool-cases (str_eq id "")) [
  | inl empty ↦ absurd (raised (rw empty at e))
  | inr given ↦
      find_by_id-alive id (record w { faults = rest_of w.faults }) t
        (begun_ok (RefreshTokens.find_by_id id) (faulty w.faults)
          (record w { faults = rest_of w.faults }) t (rw given at e))
]
  where
    raised : err refresh_token_not_found ≡ ok t → ⊥
    raised e = ground arith
