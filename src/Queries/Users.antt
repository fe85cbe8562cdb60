-- ===== src/Queries/Users.antt =====
-- sqlc/users.sql.go
use news_feed_backend.Prelude.{
  ℕ, String, str_eq, Bool, true, false, ◌&&◌, ◌||◌, Option, none, some, ◌∷◌, is_none, if◌then◌else◌,
  find_first, exists, update_where,
}
use news_feed_backend.Store.{
  User, Db, live, Result, ok, err, M, read, query, exec, one, no_rows, unique_violation,
}

pub record CreateUserParams : Type 0 where
  pub id : String
  pub google_id : String
  pub email : String
  pub name : String
  pub picture : Option String

-- The primary key and the two UNIQUE columns; removed rows count too.
abbrev pub clashes : CreateUserParams → User → Bool
clashes p u = str_eq u.id p.id || (str_eq u.google_id p.google_id || str_eq u.email p.email)

abbrev pub new_user : ℕ → CreateUserParams → User
new_user now p = record {
  id = p.id;
  google_id = p.google_id;
  email = p.email;
  name = p.name;
  picture = p.picture;
  status = true;
  last_login_at = none;
  created_at = now;
  modified_at = none;
  removed_at = none;
  admin = false;
  last_active_at = now;
}

unfoldable pub insert_user : CreateUserParams → ℕ → Db → Result User × Db
insert_user p now db =
    if exists (clashes p) db.users
    then (err unique_violation, db)
    else (ok (new_user now p), record db { users = new_user now p ∷ db.users })

unfoldable pub create_user : CreateUserParams → M User
unfolding insert_user
create_user p = query (insert_user p)

abbrev pub is_active_google_user : String → User → Bool
is_active_google_user google_id u = str_eq u.google_id google_id && live u.status u.removed_at

unfoldable pub find_user_by_google_id : String → M User
find_user_by_google_id google_id =
    read (λ now db. one (find_first (is_active_google_user google_id) db.users))

abbrev pub is_active_user : String → User → Bool
is_active_user id u = str_eq u.id id && live u.status u.removed_at

unfoldable pub find_user_by_id : String → M User
find_user_by_id id = read (λ now db. one (find_first (is_active_user id) db.users))

abbrev pub with_admin : ℕ → Bool → User → User
with_admin now admin u = record u { admin = admin; modified_at = some now }

change_admin : String → Bool → ℕ → Db → Option User → Result User × Db
change_admin id admin now db none = (err no_rows, db)
change_admin id admin now db (some u) = (
  ok (with_admin now admin u),
  record db { users = update_where (is_active_user id) (with_admin now admin) db.users },
)

unfoldable pub set_user_admin : String → Bool → M User
unfolding change_admin
set_user_admin id admin =
    query (λ now db. change_admin id admin now db (find_first (is_active_user id) db.users))

abbrev pub removed_user : ℕ → User → User
removed_user now u = record u { status = false; removed_at = some now; modified_at = some now }

abbrev pub is_unremoved_user : String → User → Bool
is_unremoved_user id u = str_eq u.id id && is_none u.removed_at

unfoldable pub soft_delete_user : String → M (Unit {0})
soft_delete_user id = exec (λ now db. record db {
  users = update_where (is_unremoved_user id) (removed_user now) db.users;
})

abbrev pub active_at : ℕ → User → User
active_at now u = record u { last_active_at = now; modified_at = some now }

unfoldable pub update_user_last_active : String → M (Unit {0})
update_user_last_active id =
    exec (λ now db. record db { users = update_where (is_active_user id) (active_at now) db.users })

abbrev pub logged_in_at : ℕ → User → User
logged_in_at now u = record u { last_login_at = some now; modified_at = some now }

unfoldable pub update_user_last_login : String → M (Unit {0})
update_user_last_login id =
    exec
      (λ now db. record db { users = update_where (is_active_user id) (logged_in_at now) db.users })
