-- ===== src/Queries/Sources.antt =====
-- sqlc/sources.sql.go. The lists are in Listing.
use news_feed_backend.Prelude.{
  ℕ, String, str_eq, Bool, true, false, not, ◌&&◌, ◌||◌, Option, none, some, ◌∷◌, is_none,
  if◌then◌else◌, find_first, exists, update_where,
}
use news_feed_backend.Store.{
  Source, Db, live, Result, ok, err, M, read, query, exec, one, no_rows, unique_violation,
}

pub record CreateSourceParams : Type 0 where
  pub id : String
  pub name : String
  pub url : String
  pub url_rss : String

abbrev pub is_active_source : String → Source → Bool
is_active_source id s = str_eq s.id id && live s.status s.removed_at

-- The primary key, and the two unique indexes over the rows that are not removed.
abbrev pub clashes : CreateSourceParams → Source → Bool
clashes p s =
    str_eq s.id p.id || (is_none s.removed_at && (str_eq s.url p.url || str_eq s.url_rss p.url_rss))

abbrev pub new_source : ℕ → CreateSourceParams → Source
new_source now p = record {
  id = p.id;
  status = true;
  name = p.name;
  url = p.url;
  url_rss = p.url_rss;
  created_at = now;
  modified_at = none;
  removed_at = none;
}

unfoldable pub insert_source : CreateSourceParams → ℕ → Db → Result Source × Db
insert_source p now db =
    if exists (clashes p) db.sources
    then (err unique_violation, db)
    else (ok (new_source now p), record db { sources = new_source now p ∷ db.sources })

unfoldable pub create_source : CreateSourceParams → M Source
unfolding insert_source
create_source p = query (insert_source p)

unfoldable pub find_source_by_id : String → M Source
find_source_by_id id = read (λ now db. one (find_first (is_active_source id) db.sources))

-- Another row that holds one of the new values.
abbrev pub clashes_on_update : CreateSourceParams → Source → Bool
clashes_on_update p s =
    not (str_eq s.id p.id)
    && (is_none s.removed_at && (str_eq s.url p.url || str_eq s.url_rss p.url_rss))

abbrev pub updated_source : ℕ → CreateSourceParams → Source → Source
updated_source now p s = record s {
  name = p.name;
  url = p.url;
  url_rss = p.url_rss;
  modified_at = some now;
}

unfoldable pub change_source : CreateSourceParams → ℕ → Db → Option Source → Result Source × Db
change_source p now db none = (err no_rows, db)
change_source p now db (some s) =
    if exists (clashes_on_update p) db.sources then (err unique_violation, db) else (
      ok (updated_source now p s),
      record db {
        sources = update_where (is_active_source p.id) (updated_source now p) db.sources;
      },
    )

unfoldable pub update_source : CreateSourceParams → M Source
unfolding change_source
update_source p =
    query (λ now db. change_source p now db (find_first (is_active_source p.id) db.sources))

abbrev pub removed_source : ℕ → Source → Source
removed_source now s = record s { status = false; removed_at = some now; modified_at = some now }

abbrev pub is_unremoved_source : String → Source → Bool
is_unremoved_source id s = str_eq s.id id && is_none s.removed_at

unfoldable pub soft_delete_source : String → M (Unit {0})
soft_delete_source id = exec (λ now db. record db {
  sources = update_where (is_unremoved_source id) (removed_source now) db.sources;
})
