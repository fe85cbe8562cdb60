-- ===== src/History.antt =====
-- What happens to the database: the calls of the handlers that write and the sweeps of the
-- scheduler, one after another, each in the world that those before it leave, some time later.
-- `expiry` and `lifetime` are those of refresh and access tokens.
pub mod Changes
pub mod Statements
pub mod Lift
pub mod Steps
pub mod Bodies
pub mod Discoveries
pub mod Sweeps
pub mod Runs
pub mod Atomic
pub mod Failures
use Prim.Native.Char.{Char}
use news_feed_backend.Prelude.{ℕ, ◌+◌, String, Bool, Option, List, [], ◌∷◌}
use news_feed_backend.Store.{Result, World, with_transaction}
use news_feed_backend.Controllers.Auth.{GoogleUserInfo, Claims, handle_google_callback}
use news_feed_backend.Controllers.Users.{soft_delete_user}
use news_feed_backend.Endpoints.Articles
use news_feed_backend.Endpoints.Articles.{ArticleRequest}
use news_feed_backend.Endpoints.Sources
use news_feed_backend.Endpoints.Sources.{SourceRequest}
use news_feed_backend.Endpoints.Feeds
use news_feed_backend.Endpoints.Feeds.{FeedRequest}
use news_feed_backend.Endpoints.Sessions
use news_feed_backend.Endpoints.Settings
use news_feed_backend.Endpoints.Settings.{PreferencesRequest}
use news_feed_backend.Discovery.Sweep.{Runner, run_sweep}

pub data Call : Type 0 where
  create_article : Option ArticleRequest → Call
  update_article : String → Option ArticleRequest → Call
  delete_article : String → Call
  mark_as_read : String → String → Call
  create_source : Option SourceRequest → Call
  update_source : String → Option SourceRequest → Call
  delete_source : String → Call
  create_feed : String → Option FeedRequest → Call
  update_feed : String → String → Option FeedRequest → Call
  delete_feed : String → String → Call
  google_callback : Result GoogleUserInfo → Call
  refresh_token : Option String → Call
  logout : Claims → Call
  invalidate : Option String → Call
  invalidate_all : String → Call
  update_preferences : Claims → Option PreferencesRequest → Call
  update_app_status : Option (Option Bool) → Call
  delete_user : String → Call

pub data Event : Type 0 where
  request : Call → Event
  sweep : Runner → Event

module _ (lower : Char → Char) (valid_url : String → Bool) (expiry lifetime : ℕ) where
  unfoldable pub run_call : Call → World → World
  run_call (create_article body) w = (Articles.create_article lower valid_url body w).1
  run_call (update_article id body) w = (Articles.update_article lower valid_url id body w).1
  run_call (delete_article id) w = (Articles.delete_article id w).1
  run_call (mark_as_read id user_id) w = (Articles.mark_as_read id user_id w).1
  run_call (create_source body) w = (Sources.create_source valid_url body w).1
  run_call (update_source id body) w = (Sources.update_source valid_url id body w).1
  run_call (delete_source id) w = (Sources.delete_source id w).1
  run_call (create_feed user_id body) w = (Feeds.create_feed lower user_id body w).1
  run_call (update_feed user_id id body) w = (Feeds.update_feed lower user_id id body w).1
  run_call (delete_feed user_id id) w = (Feeds.delete_feed user_id id w).1
  run_call (google_callback info) w = (handle_google_callback expiry lifetime info w).1
  run_call (refresh_token body) w = (Sessions.refresh_token expiry lifetime body w).1
  run_call (logout claims) w = (Sessions.logout claims w).1
  run_call (invalidate body) w = (Sessions.invalidate body w).1
  run_call (invalidate_all user_id) w = (Sessions.invalidate_all user_id w).1
  run_call (update_preferences claims body) w =
      (Settings.update_preferences lifetime claims body w).1
  run_call (update_app_status body) w = (Settings.update_app_status body w).1
  run_call (delete_user id) w = (with_transaction (soft_delete_user id) w).1

  unfoldable pub run_event : Event → World → World
  unfolding run_call
  run_event (request c) w = run_call c w
  run_event (sweep r) w = (run_sweep lower r w).1

  -- The time that passes before each event comes with it.
  unfoldable pub run : List (ℕ × Event) → World → World
  unfolding run_event
  run [] w = w
  run ((wait, e) ∷ es) w = run es (run_event e (record w { now = w.now + wait }))
