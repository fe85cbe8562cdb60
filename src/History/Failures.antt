-- ===== src/History/Failures.antt =====
-- What a request that is refused, or that fails, leaves behind: nothing.
use Prim.Native.Char.{Char}
use news_feed_backend.Prelude.{ℕ, String, Bool, true, false, ◌≡◌, refl, none, arith}
use news_feed_backend.Store.{Result, ok, err, World, M, with_transaction}
use news_feed_backend.Controllers.Auth.{GoogleUserInfo, handle_google_callback, open_session}
use news_feed_backend.Controllers.Users.{soft_delete_user}
use news_feed_backend.Endpoints.Reply.{Reply, done, failed, Handler}
use news_feed_backend.Endpoints.Articles
use news_feed_backend.Endpoints.Sources
use news_feed_backend.Endpoints.Feeds
use news_feed_backend.Endpoints.Sessions
use news_feed_backend.Endpoints.Settings
use news_feed_backend.History
use news_feed_backend.History.{Call, run_call}
use news_feed_backend.History.Atomic.{
  IsAtomic, RollsBack, with_transaction-RollsBack, then-RollsBack, articles-IsAtomic,
  sources-IsAtomic, feeds-IsAtomic, refresh_token-IsAtomic, logout-IsAtomic, invalidate-IsAtomic,
  invalidate_all-IsAtomic, update_preferences-IsAtomic, update_app_status-IsAtomic,
}

abbrev is_failure : {A : Type 0} → Reply A → Bool
is_failure (done status a) = false
is_failure (failed status) = true

abbrev is_error : {A : Type 0} → Result A → Bool
is_error (ok a) = false
is_error (err e) = true

module _ (lower : Char → Char) (valid_url : String → Bool) (expiry lifetime : ℕ) where
  -- Whether the call is answered with the status of an error.
  unfoldable pub call_fails : Call → World → Bool
  call_fails (History.create_article body) w =
      is_failure (Articles.create_article lower valid_url body w).0
  call_fails (History.update_article id body) w =
      is_failure (Articles.update_article lower valid_url id body w).0
  call_fails (History.delete_article id) w = is_failure (Articles.delete_article id w).0
  call_fails (History.mark_as_read id user_id) w = is_failure (Articles.mark_as_read id user_id w).0
  call_fails (History.create_source body) w = is_failure (Sources.create_source valid_url body w).0
  call_fails (History.update_source id body) w =
      is_failure (Sources.update_source valid_url id body w).0
  call_fails (History.delete_source id) w = is_failure (Sources.delete_source id w).0
  call_fails (History.create_feed user_id body) w =
      is_failure (Feeds.create_feed lower user_id body w).0
  call_fails (History.update_feed user_id id body) w =
      is_failure (Feeds.update_feed lower user_id id body w).0
  call_fails (History.delete_feed user_id id) w = is_failure (Feeds.delete_feed user_id id w).0
  call_fails (History.google_callback info) w =
      is_error (handle_google_callback expiry lifetime info w).0
  call_fails (History.refresh_token body) w =
      is_failure (Sessions.refresh_token expiry lifetime body w).0
  call_fails (History.logout claims) w = is_failure (Sessions.logout claims w).0
  call_fails (History.invalidate body) w = is_failure (Sessions.invalidate body w).0
  call_fails (History.invalidate_all user_id) w = is_failure (Sessions.invalidate_all user_id w).0
  call_fails (History.update_preferences claims body) w =
      is_failure (Settings.update_preferences lifetime claims body w).0
  call_fails (History.update_app_status body) w = is_failure (Settings.update_app_status body w).0
  call_fails (History.delete_user id) w = is_error (with_transaction (soft_delete_user id) w).0

module _ {A : Type 0} where
  handler_unchanged :
      {h : Handler A} (w : World) → IsAtomic h → is_failure (h w).0 ≡ true → (h w).1.db ≡ w.db
  handler_unchanged {h} w k f = go (h w).0 refl f
    where
      go : (r : Reply A) → (h w).0 ≡ r → is_failure r ≡ true → (h w).1.db ≡ w.db
      go (done status a) e x = absurd (ground arith)
      go (failed status) e x = k.at w status e

  action_unchanged :
      {m : M A} (w : World) → RollsBack m → is_error (m w).0 ≡ true → (m w).1.db ≡ w.db
  action_unchanged {m} w k f = go (m w).0 refl f
    where
      go : (r : Result A) → (m w).0 ≡ r → is_error r ≡ true → (m w).1.db ≡ w.db
      go (ok a) e x = absurd (ground arith)
      go (err x) e y = k.at w x e

login-RollsBack :
    (expiry lifetime : ℕ) (info : Result GoogleUserInfo)
    → RollsBack (handle_google_callback expiry lifetime info)
unfolding handle_google_callback
login-RollsBack expiry lifetime (err e) = record { at = λ w x h. refl }
login-RollsBack expiry lifetime (ok info) =
    then-RollsBack _ (with_transaction-RollsBack (open_session expiry info))

module _ (lower : Char → Char) (valid_url : String → Bool) (expiry lifetime : ℕ) where
  -- A request that is answered with the status of an error, be it that a guard refuses it, that a
  -- statement fails or that the commit does, leaves the database as it was.
  pub run_call-unchanged :
      (c : Call) (w : World)
      → call_fails lower valid_url expiry lifetime c w ≡ true
      → (run_call lower valid_url expiry lifetime c w).db ≡ w.db
  unfolding call_fails run_call
  run_call-unchanged (History.create_article body) w =
      handler_unchanged w (articles-IsAtomic lower valid_url body "" "").0
  run_call-unchanged (History.update_article id body) w =
      handler_unchanged w (articles-IsAtomic lower valid_url body id "").1.0
  run_call-unchanged (History.delete_article id) w =
      handler_unchanged w (articles-IsAtomic lower valid_url none id "").1.1.0
  run_call-unchanged (History.mark_as_read id user_id) w =
      handler_unchanged w (articles-IsAtomic lower valid_url none id user_id).1.1.1
  run_call-unchanged (History.create_source body) w =
      handler_unchanged w (sources-IsAtomic lower valid_url body "").0
  run_call-unchanged (History.update_source id body) w =
      handler_unchanged w (sources-IsAtomic lower valid_url body id).1.0
  run_call-unchanged (History.delete_source id) w =
      handler_unchanged w (sources-IsAtomic lower valid_url none id).1.1
  run_call-unchanged (History.create_feed user_id body) w =
      handler_unchanged w (feeds-IsAtomic lower valid_url body "" user_id).0
  run_call-unchanged (History.update_feed user_id id body) w =
      handler_unchanged w (feeds-IsAtomic lower valid_url body id user_id).1.0
  run_call-unchanged (History.delete_feed user_id id) w =
      handler_unchanged w (feeds-IsAtomic lower valid_url none id user_id).1.1
  run_call-unchanged (History.google_callback info) w =
      action_unchanged w (login-RollsBack expiry lifetime info)
  run_call-unchanged (History.refresh_token body) w =
      handler_unchanged w (refresh_token-IsAtomic expiry lifetime body)
  run_call-unchanged (History.logout claims) w = handler_unchanged w (logout-IsAtomic claims)
  run_call-unchanged (History.invalidate body) w = handler_unchanged w (invalidate-IsAtomic body)
  run_call-unchanged (History.invalidate_all user_id) w =
      handler_unchanged w (invalidate_all-IsAtomic user_id)
  run_call-unchanged (History.update_preferences claims body) w =
      handler_unchanged w (update_preferences-IsAtomic lifetime claims body)
  run_call-unchanged (History.update_app_status body) w =
      handler_unchanged w (update_app_status-IsAtomic body)
  run_call-unchanged (History.delete_user id) w =
      action_unchanged w (with_transaction-RollsBack (soft_delete_user id))
