-- ===== src/Examples/Requests.antt =====
-- Guards, removals, sessions and the triage on the small database.
use news_feed_backend.Prelude.{
  ℕ, ◌<◌, String, ◌≡◌, ◌⊎◌, refl, true, false, none, some, List, [], ◌∷◌, find_first, exists, ltb,
  if◌then◌else◌, arith,
}
use news_feed_backend.Store.{
  Result, ok, err, with_transaction, begun, finish, committed, read, query, answered, User,
  refresh_token_expired, refresh_token_not_found,
}
use news_feed_backend.Queries.ControlPanel.{get_system}
use news_feed_backend.Queries.RefreshTokens.{find_refresh_token_by_id, new_token}
use news_feed_backend.Queries.Users.{find_user_by_id, is_active_user}
use news_feed_backend.Queries.Articles.{is_active_article, is_unremoved_of_source}
use news_feed_backend.Queries.OutboundLinks.{points_to}
use news_feed_backend.Queries.Sources.{is_active_source}
use news_feed_backend.Queries.Feeds.{CandidateRow}
use news_feed_backend.Controllers.RefreshTokens
use news_feed_backend.Controllers.Users
use news_feed_backend.Controllers.ControlPanel
use news_feed_backend.Outbound.Hrefs.{strip_prefix, internal_href, internal_href_prefix}
use news_feed_backend.Endpoints.Reply.{done}
use news_feed_backend.Endpoints.Articles.{delete_article}
use news_feed_backend.Endpoints.Sources.{delete_source}
use news_feed_backend.Middlewares.{
  app_status_guard, require_admin, is_admin, is_request_from_admin, parse_access_token,
  check_session,
}
use news_feed_backend.Middlewares.Guards.{
  IsServing, IsFromAdmin, app_status_guard-closed, require_admin-closed,
}
use news_feed_backend.Judgement.{Evaluator, evaluate, outcome, auto_associated}
use news_feed_backend.Judgement.Triage.{IsRight, evaluate-IsRight, discard_rule_sharp}
use news_feed_backend.Outcomes.Tokens.{calm, token_life}
use news_feed_backend.Outcomes.Removals.{delete_article_lem, delete_source_lem}
use news_feed_backend.Examples.Data.{
  small_db, small_world, token_of_ana, ana_claims, sea_feed, story, paper,
}

-- The application is off, and Ana, who is an administrator, comes in.
app_status_guard-closed_example :
    IsServing small_db ⊎ IsFromAdmin token_of_ana "Bearer x" small_db 10
unfolding app_status_guard ControlPanel.get get_system is_request_from_admin parse_access_token
    strip_prefix check_session RefreshTokens.find_by_id find_refresh_token_by_id is_admin
    Users.find_user_by_id find_user_by_id with_transaction begun finish committed read query
    answered find_first
app_status_guard-closed_example = app_status_guard-closed token_of_ana "Bearer x" small_world refl

require_admin-closed_example :
    (u : User) × ((find_first (is_active_user "u1") small_db.users ≡ some u) × (u.admin ≡ true))
unfolding require_admin is_admin Users.find_user_by_id find_user_by_id with_transaction begun finish
    committed read query answered find_first
require_admin-closed_example = require_admin-closed ana_claims ana_claims small_world refl

abbrev triage : Evaluator
triage = record { threshold = 70; ratio_num = 6; ratio_den = 10; min_matches = 3 }

abbrev scores : ℕ → List String → String → List String → Result ℕ
scores call feed_keywords title keywords = ok 80

abbrev candidates : List CandidateRow
candidates =
    record { feed = sea_feed; overlap_count = 5 }
    ∷ record { feed = sea_feed; overlap_count = 1 }
    ∷ record { feed = sea_feed; overlap_count = 2 }
    ∷ []

evaluate-IsRight_example :
    IsRight scores triage "Story" [] candidates 0 (evaluate scores triage candidates "Story" [] 0)
evaluate-IsRight_example = evaluate-IsRight scores triage candidates "Story" [] 0

token_life_example :
    (let made = RefreshTokens.create 30 "u1" (calm small_db 10 (some "t2" ∷ [])) in
      let then_world = record made.1 { now = 41 } in
      (made.0 ≡ ok (new_token 10 "t2" "u1" 40))
      × (((RefreshTokens.find_by_id "t2" then_world).0
            ≡ (if ltb 40 41 then err refresh_token_expired else ok (new_token 10 "t2" "u1" 40)))
          × ((RefreshTokens.find_by_id "t2" (RefreshTokens.revoke "t2" then_world).1).0
              ≡ err refresh_token_not_found)))
unfolding exists
token_life_example = token_life 30 10 41 "t2" "u1" small_db refl refl

delete_article_lem_example :
    (let r = delete_article "a1" (calm small_db 10 []) in
      (r.0 ≡ done 204 tt)
      × ((find_first (is_active_article "a1") r.1.db.articles ≡ none)
          × (exists (points_to (internal_href "a1")) r.1.db.article_outbound_links ≡ false)))
unfolding find_first internal_href internal_href_prefix
delete_article_lem_example = delete_article_lem "a1" story small_db 10 refl refl refl

delete_source_lem_example :
    (let r = delete_source "s1" (calm small_db 10 []) in
      (r.0 ≡ done 204 tt)
      × ((find_first (is_active_source "s1") r.1.db.sources ≡ none)
          × (exists (is_unremoved_of_source "s1") r.1.db.articles ≡ false)))
unfolding find_first
delete_source_lem_example = delete_source_lem "s1" paper small_db 10 refl refl

-- A ratio of 0.20 and two matches needed.
abbrev even_triage : Evaluator
even_triage = record { threshold = 70; ratio_num = 2; ratio_den = 10; min_matches = 2 }

abbrev one_match : CandidateRow
one_match = record { feed = sea_feed; overlap_count = 1 }

discard_rule_sharp_example :
    (1 < 2)
    × (evaluate scores even_triage (one_match ∷ []) "Story" [] 0
        ≡ (ok (outcome one_match auto_associated 0 true ∷ []), 0))
discard_rule_sharp_example =
    discard_rule_sharp scores even_triage one_match "Story" [] 0 refl (omega arith) refl refl
