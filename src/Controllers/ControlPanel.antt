-- ===== src/Controllers/ControlPanel.antt =====
-- services/controllers/system.go
use news_feed_backend.Prelude.{ℕ, Bool, some}
use news_feed_backend.Store.{System, M, map_err, system_not_found}
use news_feed_backend.Queries.ControlPanel.{
  get_system, update_system_app_status, update_system_last_article_discovery,
}
use news_feed_backend.Controllers.Errors.{when_missing}

unfoldable pub get : M System
get = map_err (when_missing system_not_found) get_system

unfoldable pub update_app_status : Bool → M System
update_app_status active = map_err (when_missing system_not_found) (update_system_app_status active)

unfoldable pub update_last_article_discovery : ℕ → M System
update_last_article_discovery at =
    map_err (when_missing system_not_found) (update_system_last_article_discovery (some at))
