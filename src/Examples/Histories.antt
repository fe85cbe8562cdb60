-- ===== src/Examples/Histories.antt =====
-- Histories on the small database.
use news_feed_backend.Prelude.{
  ℕ, ◌≡◌, refl, true, some, List, [], ◌∷◌, arith, find_first, exists, count_where,
}
use news_feed_backend.Store.{ok, with_transaction, begun, finish, committed, read, query, answered}
use news_feed_backend.Controllers.Articles
use news_feed_backend.Queries.Articles.{find_article_by_id}
use news_feed_backend.Endpoints.Reply.{guarded, respond}
use news_feed_backend.Endpoints.Articles.{delete_article, remove_article}
use news_feed_backend.Endpoints.Feeds.{FeedRequest}
use news_feed_backend.History
use news_feed_backend.History.{Event, request, sweep, run, run_call}
use news_feed_backend.History.Failures.{call_fails, run_call-unchanged}
use news_feed_backend.Invariants.ActiveSources.{HasActiveSources, run-HasActiveSources}
use news_feed_backend.Invariants.FeedLimit.{HasFewFeeds, run-HasFewFeeds}
use news_feed_backend.Invariants.Flags.{HasAgreeingFlags, run-HasAgreeingFlags}
use news_feed_backend.Invariants.Preferences.{HasPreferences, run-HasPreferences}
use news_feed_backend.Invariants.Sessions.{HasOneSession, run-HasOneSession}
use news_feed_backend.Invariants.UniqueUrls.{HasUniqueUrls, run-HasUniqueUrls}
use news_feed_backend.Examples.Data.{small_db, small_world, lower_same, any_url, runner}

abbrev feed_request : FeedRequest
feed_request = record { name = "Wind"; keywords = "wind" ∷ "sail" ∷ "kite" ∷ "gust" ∷ "calm" ∷ [] }

-- A feed is created, the application is switched on, a sweep runs, the source is removed with its
-- articles, Ana logs in again, and is removed.
abbrev some_events : List (ℕ × Event)
some_events =
    (1, request (History.create_feed "u1" (some feed_request)))
    ∷ (1, request (History.update_app_status (some (some true))))
    ∷ (3, sweep runner)
    ∷ (2, request (History.delete_source "s1"))
    ∷ (
      1,
      request (
          History.google_callback
            (ok (record { id = "g1"; email = "ana@example.com"; name = "Ana"; picture = "" }))),
    )
    ∷ (3, request (History.delete_user "u1"))
    ∷ []

run-HasActiveSources_example :
    HasActiveSources (run lower_same any_url 30 5 some_events small_world).db
unfolding exists
run-HasActiveSources_example =
    run-HasActiveSources lower_same any_url 30 5 some_events small_world ((λ l. refl), tt)

few_feeds : HasFewFeeds small_db
unfolding count_where
few_feeds user_id = ground arith

run-HasFewFeeds_example : HasFewFeeds (run lower_same any_url 30 5 some_events small_world).db
run-HasFewFeeds_example = run-HasFewFeeds lower_same any_url 30 5 some_events small_world few_feeds

one_session : HasOneSession small_db
unfolding count_where
one_session user_id = ground arith

run-HasOneSession_example : HasOneSession (run lower_same any_url 30 5 some_events small_world).db
run-HasOneSession_example =
    run-HasOneSession lower_same any_url 30 5 some_events small_world one_session

run-HasUniqueUrls_example : HasUniqueUrls (run lower_same any_url 30 5 some_events small_world).db
run-HasUniqueUrls_example =
    run-HasUniqueUrls lower_same any_url 30 5 some_events small_world
      (record { articles = (tt, tt); sources = (tt, tt) })

run-HasAgreeingFlags_example :
    HasAgreeingFlags (run lower_same any_url 30 5 some_events small_world).db
run-HasAgreeingFlags_example =
    run-HasAgreeingFlags lower_same any_url 30 5 some_events small_world (record {
      articles = (refl, tt);
      sources = (refl, tt);
      feeds = (refl, tt);
      refresh_tokens = (refl, tt);
      users = (refl, tt);
      user_preferences = (refl, tt);
    })

run-HasPreferences_example : HasPreferences (run lower_same any_url 30 5 some_events small_world).db
unfolding exists
run-HasPreferences_example =
    run-HasPreferences lower_same any_url 30 5 some_events small_world ((λ l. refl), tt)

-- DELETE of an article that is not there: 404.
run_call-unchanged_example :
    (run_call lower_same any_url 30 5 (History.delete_article "a9") small_world).db ≡ small_db
unfolding call_fails delete_article guarded respond with_transaction begun finish committed
    remove_article Articles.find_by_id find_article_by_id read query answered find_first
run_call-unchanged_example =
    run_call-unchanged lower_same any_url 30 5 (History.delete_article "a9") small_world refl
