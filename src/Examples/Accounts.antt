-- ===== src/Examples/Accounts.antt =====
-- The account of Ana removed.
use news_feed_backend.Prelude.{◌≡◌, refl, false, some, [], ◌∷◌, exists, find_first}
use news_feed_backend.Store.{World, ok}
use news_feed_backend.Controllers.Auth.{GoogleUserInfo, AuthResponse, handle_google_callback}
use news_feed_backend.Outcomes.Logins.{handle_google_callback-gone}
use news_feed_backend.Examples.Data.{small_db, small_world, ana, ana_claims}

abbrev world_without_ana : World
world_without_ana = record small_world {
  db = record small_db {
    users = record ana { status = false; removed_at = some 9; modified_at = some 9 } ∷ [];
  };
}

abbrev info_of_ana : GoogleUserInfo
info_of_ana = record { id = "g1"; email = "ana@example.com"; name = "Ana"; picture = "" }

abbrev answer_for_ana : AuthResponse
answer_for_ana = record { access_token = ana_claims; refresh_token = "t2"; expires_in = 5 }

handle_google_callback-gone_example :
    ¬ ((handle_google_callback 30 5 (ok info_of_ana) world_without_ana).0 ≡ ok answer_for_ana)
unfolding exists find_first
handle_google_callback-gone_example =
    handle_google_callback-gone info_of_ana 30 5 world_without_ana (refl, refl) answer_for_ana
