-- ===== src/Endpoints/Reply.antt =====
-- The answers of the handlers: a status, with a value where the handler returns one.
use news_feed_backend.Prelude.{ℕ, String, str_eq, Option, none, some, if◌then◌else◌}
use news_feed_backend.Store.{Error, Result, ok, err, World, M}

pub data Reply (A : Type 0) : Type 0 where
  done : ℕ → A → Reply A
  failed : ℕ → Reply A

abbrev pub Handler : Type 0 → Type 0
Handler A = World → Reply A × World

-- The end of a handler: the status of a success, and the status of each error.
abbrev pub answer : {A : Type 0} → ℕ → (Error → ℕ) → Result A × World → Reply A × World
answer status failure (ok a, w) = (done status a, w)
answer status failure (err e, w) = (failed (failure e), w)

unfoldable pub respond : {A : Type 0} → ℕ → (Error → ℕ) → M A → Handler A
respond status failure m w = answer status failure (m w)

-- A guard that returned a message: 400, and nothing is done.
unfoldable pub guarded : {A : Type 0} → String → Handler A → Handler A
guarded message handler w = if str_eq message "" then handler w else (failed 400, w)

-- A body that does not parse: 400.
unfoldable pub with_body : {A B : Type 0} → Option B → (B → Handler A) → Handler A
with_body none handler w = (failed 400, w)
with_body (some b) handler w = handler b w

abbrev pub id_message : String → String
id_message id = if str_eq id "" then "id is required" else ""
