-- ===== src/History/Runs.antt =====
-- A history keeps what its writing steps keep.
use Prim.Native.Char.{Char}
use news_feed_backend.Prelude.{
  ℕ, ◌+◌, String, str_eq, Bool, true, false, Option, none, some, List, [], ◌∷◌, if◌then◌else◌,
}
use news_feed_backend.Store.{
  Db, M, Error, Result, World, ok, err, Keeps, with_transaction, with_transaction-Keeps,
  Keeps-Leads, >>=-Keeps, map_err-Keeps, raise-Keeps,
}
use news_feed_backend.Controllers.Auth
use news_feed_backend.Controllers.Auth.{GoogleUserInfo, Session, Claims, handle_google_callback}
use news_feed_backend.Controllers.Articles
use news_feed_backend.Controllers.Feeds
use news_feed_backend.Controllers.RefreshTokens
use news_feed_backend.Controllers.ControlPanel
use news_feed_backend.Controllers.Sources
use news_feed_backend.Endpoints.Reply.{
  Reply, Handler, respond, guarded, with_body, answer, done, failed,
}
use news_feed_backend.Endpoints.Articles.{
  ArticleRequest, create_article, update_article, delete_article, mark_as_read, marked,
  mark_article, not_found_failure,
}
use news_feed_backend.Endpoints.Sources.{SourceRequest, create_source, update_source, delete_source}
use news_feed_backend.Endpoints.Feeds.{FeedRequest, create_feed, update_feed, delete_feed}
use news_feed_backend.Endpoints.Sessions.{refresh_token, logout, invalidate, invalidate_all}
use news_feed_backend.Endpoints.Settings.{PreferencesRequest, update_preferences, update_app_status}
use news_feed_backend.History
use news_feed_backend.History.{Call, run_call, Event, request, sweep, run_event, run}
use news_feed_backend.History.Steps.{Preserves}
use news_feed_backend.History.Sweeps.{swept}
use news_feed_backend.History.Bodies.{
  article_removed, marked_read, source_removed, feed_removed, source_created, session_opened,
  session_renewed, preferences_saved,
}

-- A handler leaves `I` true.
record Spares {A : Type 0} (I : Db → Type 0) (h : Handler A) : Type 0 where
  at : (w : World) → I w.db → I (h w).1.db

module _ (I : Db → Type 0) {A : Type 0} where
  respond-Spares :
      (status : ℕ) (failure : Error → ℕ) {m : M A} → Keeps I m → Spares I (respond status failure m)
  unfolding respond
  respond-Spares status failure {m} k = record { at = λ w h. go (m w) (k.at w h) }
    where
      go : (r : Result A × World) → I r.1.db → I (answer status failure r).1.db
      go (ok a, w) h = h
      go (err e, w) h = h

  guarded-Spares : (message : String) {h : Handler A} → Spares I h → Spares I (guarded message h)
  unfolding guarded
  guarded-Spares message {h} k = record { at = λ w i. go (str_eq message "") w i }
    where
      go : (b : Bool) (w : World) → I w.db → I (if b then h w else (Reply.failed 400, w)).1.db
      go true w i = k.at w i
      go false w i = i

  with_body-Spares :
      {B : Type 0} (body : Option B) {h : B → Handler A}
      → ((b : B) → Spares I (h b))
      → Spares I (with_body body h)
  unfolding with_body
  with_body-Spares none k = record { at = λ w i. i }
  with_body-Spares (some b) k = record { at = (k b).at }

module _ (lower : Char → Char) (valid_url : String → Bool) (expiry lifetime : ℕ) {I : Db → Type 0}
    (s : Preserves lower I) where
  in_transaction : {A : Type 0} {m : M A} → Keeps I m → Keeps I (with_transaction m)
  in_transaction k = with_transaction-Keeps I (Keeps-Leads I k)

  session_answered : (session : Session) → Keeps I (Auth.auth_response lifetime session)
  session_answered session = record { at = λ w h. h }

  articles_kept :
      (body : Option ArticleRequest) (id user_id : String)
      → Spares I (create_article lower valid_url body)
        × Spares I (update_article lower valid_url id body)
        × Spares I (delete_article id)
        × Spares I (mark_as_read id user_id)
  unfolding create_article update_article delete_article mark_as_read Articles.update
  articles_kept body id user_id = (
    with_body-Spares I body λ r. guarded-Spares I _ (
        guarded-Spares I _ (
          guarded-Spares I _
            (respond-Spares I _ _ (with_transaction-Keeps I (s.article_creation _ _ _ _ _ _))))),
    guarded-Spares I _ (
        with_body-Spares I body λ r. guarded-Spares I _ (
          guarded-Spares I _
            (respond-Spares I _ _ (in_transaction (map_err-Keeps I _ (s.article_update _)))))),
    guarded-Spares I _ (respond-Spares I _ _ (in_transaction (article_removed s id))),
    record {
      at = λ w h.
          marked-keeps
            (respond 200 not_found_failure (with_transaction (mark_article id user_id)) w)
            ((respond-Spares I 200 not_found_failure (in_transaction (marked_read s id user_id))).at
              w h);
    },
  )
    where
      marked-keeps : (r : Reply Bool × World) → I r.1.db → I (marked r).1.db
      marked-keeps (done status true, w) h = h
      marked-keeps (done status false, w) h = h
      marked-keeps (failed status, w) h = h

  sources_kept :
      (body : Option SourceRequest) (id : String)
      → Spares I (create_source valid_url body)
        × Spares I (update_source valid_url id body)
        × Spares I (delete_source id)
  unfolding create_source update_source delete_source Sources.update
  sources_kept body id = (
    with_body-Spares I body
        λ r. guarded-Spares I _ (respond-Spares I _ _ (in_transaction (source_created s _ _ _))),
    guarded-Spares I _ (
        with_body-Spares I body λ r.
          guarded-Spares I _
            (respond-Spares I _ _ (in_transaction (map_err-Keeps I _ (s.source_update _))))),
    guarded-Spares I _ (respond-Spares I _ _ (with_transaction-Keeps I (source_removed s id))),
  )

  feeds_kept :
      (body : Option FeedRequest) (id user_id : String)
      → Spares I (create_feed lower user_id body)
        × Spares I (update_feed lower user_id id body)
        × Spares I (delete_feed user_id id)
  unfolding create_feed update_feed delete_feed Feeds.update
  feeds_kept body id user_id = (
    with_body-Spares I body λ r.
        guarded-Spares I _
          (respond-Spares I _ _ (with_transaction-Keeps I (s.feed_creation _ _ _))),
    guarded-Spares I _ (
        with_body-Spares I body λ r.
          guarded-Spares I _
            (respond-Spares I _ _ (in_transaction (map_err-Keeps I _ (s.feed_update _))))),
    guarded-Spares I _ (respond-Spares I _ _ (in_transaction (feed_removed s id user_id))),
  )

  sessions_kept :
      (body : Option String) (user_id : String)
      → Spares I (refresh_token expiry lifetime body)
        × Spares I (invalidate body)
        × Spares I (invalidate_all user_id)
  unfolding refresh_token invalidate invalidate_all Auth.refresh_access_token RefreshTokens.revoke
      RefreshTokens.revoke_all
  sessions_kept body user_id = (
    with_body-Spares I body λ id. guarded-Spares I _ (
        respond-Spares I _ _
          (>>=-Keeps I (in_transaction (session_renewed s expiry id)) session_answered)),
    with_body-Spares I body
        λ id. guarded-Spares I _ (respond-Spares I _ _ (in_transaction (s.token_revocation _))),
    guarded-Spares I _ (respond-Spares I _ _ (in_transaction (s.token_revocations _))),
  )

  logout_kept : (claims : Claims) → Spares I (logout claims)
  unfolding logout RefreshTokens.revoke
  logout_kept claims = respond-Spares I _ _ (in_transaction (s.token_revocation _))

  login_kept :
      (info : Result GoogleUserInfo) → Keeps I (handle_google_callback expiry lifetime info)
  unfolding handle_google_callback
  login_kept (err e) = raise-Keeps I e
  login_kept (ok info) =
      >>=-Keeps I (with_transaction-Keeps I (session_opened s expiry info)) session_answered

  settings_kept :
      (claims : Claims) (body : Option PreferencesRequest)
      → Spares I (update_preferences lifetime claims body)
  unfolding update_preferences
  settings_kept claims body = with_body-Spares I body λ r. guarded-Spares I _ (
      guarded-Spares I _
        (respond-Spares I _ _ (in_transaction (preferences_saved s lifetime claims r))))

  status_kept : (status : Option (Option Bool)) → Spares I (update_app_status status)
  unfolding update_app_status ControlPanel.update_app_status
  status_kept status = with_body-Spares I status λ r.
      with_body-Spares I r
        λ active. respond-Spares I _ _ (in_transaction (map_err-Keeps I _ (s.status_update active)))

  run_call-keeps :
      (c : Call) (w : World) → I w.db → I (run_call lower valid_url expiry lifetime c w).db
  unfolding run_call
  run_call-keeps (History.create_article body) w = (articles_kept body "" "").0.at w
  run_call-keeps (History.update_article id body) w = (articles_kept body id "").1.at w
  run_call-keeps (History.delete_article id) w = (articles_kept none id "").2.at w
  run_call-keeps (History.mark_as_read id user_id) w = (articles_kept none id user_id).3.at w
  run_call-keeps (History.create_source body) w = (sources_kept body "").0.at w
  run_call-keeps (History.update_source id body) w = (sources_kept body id).1.at w
  run_call-keeps (History.delete_source id) w = (sources_kept none id).2.at w
  run_call-keeps (History.create_feed user_id body) w = (feeds_kept body "" user_id).0.at w
  run_call-keeps (History.update_feed user_id id body) w = (feeds_kept body id user_id).1.at w
  run_call-keeps (History.delete_feed user_id id) w = (feeds_kept none id user_id).2.at w
  run_call-keeps (History.google_callback info) w = (login_kept info).at w
  run_call-keeps (History.refresh_token body) w = (sessions_kept body "").0.at w
  run_call-keeps (History.logout claims) w = (logout_kept claims).at w
  run_call-keeps (History.invalidate body) w = (sessions_kept body "").1.at w
  run_call-keeps (History.invalidate_all user_id) w = (sessions_kept none user_id).2.at w
  run_call-keeps (History.update_preferences claims body) w = (settings_kept claims body).at w
  run_call-keeps (History.update_app_status body) w = (status_kept body).at w
  run_call-keeps (History.delete_user id) w = (with_transaction-Keeps I (s.user_removal id)).at w

  run_event-keeps :
      (e : Event) (w : World) → I w.db → I (run_event lower valid_url expiry lifetime e w).db
  unfolding run_event
  run_event-keeps (request c) w = run_call-keeps c w
  run_event-keeps (sweep r) w = (swept s r).at w

  -- An invariant that the writing steps keep holds after every history.
  pub run-keeps :
      (es : List (ℕ × Event)) (w : World) → I w.db → I (run lower valid_url expiry lifetime es w).db
  unfolding run
  run-keeps [] w h = h
  run-keeps ((wait, e) ∷ es) w h =
      run-keeps es (run_event lower valid_url expiry lifetime e (record w { now = w.now + wait }))
        (run_event-keeps e (record w { now = w.now + wait }) h)
