-- ===== src/History/Atomic.antt =====
-- A request that is refused, or that fails, changes nothing.
use Prim.Native.Char.{Char}
use news_feed_backend.Prelude.{
  ℕ, String, str_eq, ◌≡◌, refl, Bool, true, false, Option, none, some, if◌then◌else◌, arith,
}
use news_feed_backend.Store.{
  Db, M, Error, Result, World, ok, err, with_transaction, begun, finish, committed, ◌>>=◌, then_do,
  faulty, rest_of,
}
use news_feed_backend.Controllers.Auth
use news_feed_backend.Controllers.Auth.{
  GoogleUserInfo, Session, Claims, handle_google_callback, open_session, renew_session,
}
use news_feed_backend.Endpoints.Reply.{
  Reply, Handler, respond, guarded, with_body, answer, done, failed,
}
use news_feed_backend.Endpoints.Articles.{
  ArticleRequest, create_article, update_article, delete_article, mark_as_read, marked,
  mark_article, not_found_failure,
}
use news_feed_backend.Endpoints.Sources.{SourceRequest, create_source, update_source, delete_source}
use news_feed_backend.Endpoints.Feeds.{FeedRequest, create_feed, update_feed, delete_feed}
use news_feed_backend.Endpoints.Sessions.{refresh_token, logout, invalidate, invalidate_all}
use news_feed_backend.Endpoints.Settings.{PreferencesRequest, update_preferences, update_app_status}

-- An action that fails leaves the database as it was.
pub record RollsBack {A : Type 0} (m : M A) : Type 0 where
  pub at : (w : World) (e : Error) → (m w).0 ≡ err e → (m w).1.db ≡ w.db

-- A handler that answers with an error leaves the database as it was.
pub record IsAtomic {A : Type 0} (h : Handler A) : Type 0 where
  pub at : (w : World) (status : ℕ) → (h w).0 ≡ failed status → (h w).1.db ≡ w.db

module _ {A : Type 0} where
  ended :
      (before : Db) (r : Result A × World) (e : Error)
      → (finish before r).0 ≡ err e
      → (finish before r).1.db ≡ before
  unfolding finish committed
  ended before (err x, w) e h = refl
  ended before (ok a, w) e h = go (faulty w.faults) h
    where
      go :
          (b : Bool)
          → (committed before a (record w { faults = rest_of w.faults }) b).0 ≡ err e
          → (committed before a (record w { faults = rest_of w.faults }) b).1.db ≡ before
      go true h = refl
      go false h = absurd (ground arith)

  pub with_transaction-RollsBack : (m : M A) → RollsBack (with_transaction m)
  unfolding with_transaction begun
  with_transaction-RollsBack m = record {
    at = λ w e h. go (faulty w.faults) (record w { faults = rest_of w.faults }) e h;
  }
    where
      go : (b : Bool) (w : World) (e : Error) → (begun m b w).0 ≡ err e → (begun m b w).1.db ≡ w.db
      go true w e h = refl
      go false w e h = ended w.db (m w) e h

  -- What follows a transaction without failing.
  pub then-RollsBack :
      {B : Type 0} {m : M A} (f : A → World → B)
      → RollsBack m
      → RollsBack (m >>= λ a w. (ok (f a w), w))
  then-RollsBack {B} {m} f k = record { at = λ w e h. go (m w) (k.at w) e h }
    where
      go :
          {db : Db} (r : Result A × World)
          → ((e : Error) → r.0 ≡ err e → r.1.db ≡ db)
          → (e : Error) → (then_do (λ a w. (ok (f a w), w)) r).0 ≡ err e
          → (then_do (λ a w. (ok (f a w), w)) r).1.db ≡ db
      go (ok a, w) k e h = absurd (ground arith)
      go (err x, w) k e h = k x refl

  respond-IsAtomic :
      (status : ℕ) (failure : Error → ℕ) {m : M A}
      → RollsBack m
      → IsAtomic (respond status failure m)
  unfolding respond
  respond-IsAtomic status failure {m} k = record { at = λ w s h. go (m w) (k.at w) s h }
    where
      go :
          {db : Db} (r : Result A × World)
          → ((e : Error) → r.0 ≡ err e → r.1.db ≡ db)
          → (s : ℕ) → (answer status failure r).0 ≡ failed s
          → (answer status failure r).1.db ≡ db
      go (ok a, w) k s h = absurd (ground arith)
      go (err x, w) k s h = k x refl

  answered :
      (status : ℕ) (failure : Error → ℕ) (m : M A)
      → IsAtomic (respond status failure (with_transaction m))
  answered status failure m = respond-IsAtomic status failure (with_transaction-RollsBack m)

  guarded-IsAtomic : (message : String) {h : Handler A} → IsAtomic h → IsAtomic (guarded message h)
  unfolding guarded
  guarded-IsAtomic message {h} k = record { at = λ w s e. go (str_eq message "") w s e }
    where
      go :
          (b : Bool) (w : World) (s : ℕ)
          → (if b then h w else (Reply.failed 400, w)).0 ≡ failed s
          → (if b then h w else (Reply.failed 400, w)).1.db ≡ w.db
      go true w s e = k.at w s e
      go false w s e = refl

  with_body-IsAtomic :
      {B : Type 0} (body : Option B) {h : B → Handler A}
      → ((b : B) → IsAtomic (h b))
      → IsAtomic (with_body body h)
  unfolding with_body
  with_body-IsAtomic none k = record { at = λ w s e. refl }
  with_body-IsAtomic (some b) k = record { at = (k b).at }

module _ (lower : Char → Char) (valid_url : String → Bool) where
  -- The handlers of articles are atomic: no error answer, whatever it is for, leaves a change.
  pub articles-IsAtomic :
      (body : Option ArticleRequest) (id user_id : String)
      → IsAtomic (create_article lower valid_url body)
        × (IsAtomic (update_article lower valid_url id body)
            × (IsAtomic (delete_article id) × IsAtomic (mark_as_read id user_id)))
  unfolding create_article update_article delete_article mark_as_read
  articles-IsAtomic body id user_id = (
    with_body-IsAtomic body
        λ r. guarded-IsAtomic _ (guarded-IsAtomic _ (guarded-IsAtomic _ (answered _ _ _))),
    (
      guarded-IsAtomic _
          (with_body-IsAtomic body λ r. guarded-IsAtomic _ (guarded-IsAtomic _ (answered _ _ _))),
      (
        guarded-IsAtomic _ (answered _ _ _),
        record {
          at = λ w s e.
              after (respond 200 not_found_failure (with_transaction (mark_article id user_id)) w)
                ((answered 200 not_found_failure (mark_article id user_id)).at w) s e;
        },
      ),
    ),
  )
    where
      after :
          {db : Db} (r : Reply Bool × World)
          → ((s : ℕ) → r.0 ≡ failed s → r.1.db ≡ db)
          → (s : ℕ) → (marked r).0 ≡ failed s
          → (marked r).1.db ≡ db
      after (done n true, w) k s e = absurd (ground arith)
      after (done n false, w) k s e = absurd (ground arith)
      after (failed n, w) k s e = k n refl

  -- The handlers of sources are atomic.
  pub sources-IsAtomic :
      (body : Option SourceRequest) (id : String)
      → IsAtomic (create_source valid_url body)
        × (IsAtomic (update_source valid_url id body) × IsAtomic (delete_source id))
  unfolding create_source update_source delete_source
  sources-IsAtomic body id = (
    with_body-IsAtomic body λ r. guarded-IsAtomic _ (answered _ _ _),
    (
      guarded-IsAtomic _ (with_body-IsAtomic body λ r. guarded-IsAtomic _ (answered _ _ _)),
      guarded-IsAtomic _ (answered _ _ _),
    ),
  )

  -- The handlers of feeds are atomic.
  pub feeds-IsAtomic :
      (body : Option FeedRequest) (id user_id : String)
      → IsAtomic (create_feed lower user_id body)
        × (IsAtomic (update_feed lower user_id id body) × IsAtomic (delete_feed user_id id))
  unfolding create_feed update_feed delete_feed
  feeds-IsAtomic body id user_id = (
    with_body-IsAtomic body λ r. guarded-IsAtomic _ (answered _ _ _),
    (
      guarded-IsAtomic _ (with_body-IsAtomic body λ r. guarded-IsAtomic _ (answered _ _ _)),
      guarded-IsAtomic _ (answered _ _ _),
    ),
  )

pub refresh_token-IsAtomic :
    (expiry lifetime : ℕ) (body : Option String) → IsAtomic (refresh_token expiry lifetime body)
unfolding refresh_token Auth.refresh_access_token
refresh_token-IsAtomic expiry lifetime body = with_body-IsAtomic body λ id.
    guarded-IsAtomic _ (
      respond-IsAtomic _ _
        (then-RollsBack _ (with_transaction-RollsBack (renew_session expiry id))))

pub logout-IsAtomic : (claims : Claims) → IsAtomic (logout claims)
unfolding logout
logout-IsAtomic claims = answered _ _ _

pub invalidate-IsAtomic : (body : Option String) → IsAtomic (invalidate body)
unfolding invalidate
invalidate-IsAtomic body = with_body-IsAtomic body λ id. guarded-IsAtomic _ (answered _ _ _)

pub invalidate_all-IsAtomic : (user_id : String) → IsAtomic (invalidate_all user_id)
unfolding invalidate_all
invalidate_all-IsAtomic user_id = guarded-IsAtomic _ (answered _ _ _)

pub update_preferences-IsAtomic :
    (lifetime : ℕ) (claims : Claims) (body : Option PreferencesRequest)
    → IsAtomic (update_preferences lifetime claims body)
unfolding update_preferences
update_preferences-IsAtomic lifetime claims body =
    with_body-IsAtomic body λ r. guarded-IsAtomic _ (guarded-IsAtomic _ (answered _ _ _))

pub update_app_status-IsAtomic : (body : Option (Option Bool)) → IsAtomic (update_app_status body)
unfolding update_app_status
update_app_status-IsAtomic body =
    with_body-IsAtomic body λ r. with_body-IsAtomic r λ active. answered _ _ _
