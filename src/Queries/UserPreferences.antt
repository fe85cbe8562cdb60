-- ===== src/Queries/UserPreferences.antt =====
-- sqlc/user_preferences.sql.go
use news_feed_backend.Prelude.{
  ℕ, String, str_eq, Bool, true, false, ◌&&◌, ◌||◌, Option, none, some, ◌∷◌, is_none, if◌then◌else◌,
  find_first, exists, update_where,
}
use news_feed_backend.Store.{
  User, UserPreference, Db, live, Result, ok, err, M, read, query, exec, one, no_rows,
  unique_violation, fk_violation,
}

pub record CreateUserPreferencesParams : Type 0 where
  pub id : String
  pub user_id : String
  pub language_to_translate : Option String
  pub ai_personality : String

abbrev pub new_preferences : ℕ → CreateUserPreferencesParams → UserPreference
new_preferences now p = record {
  id = p.id;
  user_id = p.user_id;
  status = true;
  language_to_translate = p.language_to_translate;
  ai_personality = p.ai_personality;
  created_at = now;
  modified_at = none;
  removed_at = none;
}

-- The primary key, and UNIQUE (user_id).
abbrev pub clashes : CreateUserPreferencesParams → UserPreference → Bool
clashes p x = str_eq x.id p.id || str_eq x.user_id p.user_id

unfoldable pub insert_preferences :
    CreateUserPreferencesParams → ℕ → Db → Result UserPreference × Db
insert_preferences p now db =
    if exists (clashes p) db.user_preferences
    then (err unique_violation, db)
    else if exists (λ (u : User). str_eq u.id p.user_id) db.users
    then (
      ok (new_preferences now p),
      record db { user_preferences = new_preferences now p ∷ db.user_preferences },
    )
    else (err fk_violation, db)

unfoldable pub create_user_preferences : CreateUserPreferencesParams → M UserPreference
unfolding insert_preferences
create_user_preferences p = query (insert_preferences p)

abbrev pub is_active_of : String → UserPreference → Bool
is_active_of user_id p = str_eq p.user_id user_id && live p.status p.removed_at

unfoldable pub find_user_preferences_by_user_id : String → M UserPreference
find_user_preferences_by_user_id user_id =
    read (λ now db. one (find_first (is_active_of user_id) db.user_preferences))

abbrev pub removed_preferences : ℕ → UserPreference → UserPreference
removed_preferences now p = record p {
  status = false;
  removed_at = some now;
  modified_at = some now;
}

abbrev pub is_unremoved_of : String → UserPreference → Bool
is_unremoved_of user_id p = str_eq p.user_id user_id && is_none p.removed_at

unfoldable pub soft_delete_user_preferences : String → M (Unit {0})
soft_delete_user_preferences user_id = exec (λ now db. record db {
  user_preferences =
      update_where (is_unremoved_of user_id) (removed_preferences now) db.user_preferences;
})

abbrev pub updated_preferences : ℕ → Option String → String → UserPreference → UserPreference
updated_preferences now language personality p = record p {
  language_to_translate = language;
  ai_personality = personality;
  modified_at = some now;
}

unfoldable pub change_preferences :
    Option String → String → String → ℕ → Db → Option UserPreference → Result UserPreference × Db
change_preferences language personality user_id now db none = (err no_rows, db)
change_preferences language personality user_id now db (some p) = (
  ok (updated_preferences now language personality p),
  record db {
    user_preferences =
        update_where (is_active_of user_id) (updated_preferences now language personality)
          db.user_preferences;
  },
)

unfoldable pub update_user_preferences : Option String → String → String → M UserPreference
unfolding change_preferences
update_user_preferences language personality user_id = query (λ now db.
    change_preferences language personality user_id now db
      (find_first (is_active_of user_id) db.user_preferences))
