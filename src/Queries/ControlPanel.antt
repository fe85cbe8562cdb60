-- ===== src/Queries/ControlPanel.antt =====
-- sqlc/system.sql.go
use news_feed_backend.Prelude.{ℕ, Bool, Option, none, some, List, [], ◌∷◌, map}
use news_feed_backend.Store.{System, Db, Result, ok, err, M, read, query, one, no_rows}

abbrev pub first {ℓ} : {A : Type ℓ} → List A → Option A
first [] = none
first (x ∷ xs) = some x

unfoldable pub get_system : M System
get_system = read (λ now db. one (first db.system))

-- UPDATE system SET ... with no WHERE, RETURNING the row.
unfoldable pub change_system : (System → System) → Db → List System → Result System × Db
change_system change db [] = (err no_rows, db)
change_system change db (s ∷ ss) = (ok (change s), record db { system = change s ∷ map change ss })

abbrev pub with_app_status : ℕ → Bool → System → System
with_app_status now active s = record s { app_status = active; modified_at = some now }

unfoldable pub update_system_app_status : Bool → M System
unfolding change_system
update_system_app_status active =
    query (λ now db. change_system (with_app_status now active) db db.system)

abbrev pub with_watermark : ℕ → Option ℕ → System → System
with_watermark now at s = record s { last_article_discovery_at = at; modified_at = some now }

unfoldable pub update_system_last_article_discovery : Option ℕ → M System
unfolding change_system
update_system_last_article_discovery at =
    query (λ now db. change_system (with_watermark now at) db db.system)
