-- ===== src/Store/Monad.antt =====
-- Actions on the database. A statement may fail for reasons that the program does not control, an
-- id may not be generated, and a transaction that fails leaves the database as it was.
use news_feed_backend.Prelude.{ℕ, String, Bool, true, false, Option, none, some, List, [], ◌∷◌}
use news_feed_backend.Store.Models.{Db}

-- The errors that callers tell apart. `fmt.Errorf("...: %w", err)` adds a text and keeps the error
-- inside, where errors.Is and errors.As find it; so it is not modelled.
pub data Error : Type 0 where
  no_rows unique_violation fk_violation db_failure uuid_failure ai_failure parse_failure : Error
  article_not_found article_already_exists article_source_invalid : Error
  source_not_found source_already_exists : Error
  feed_not_found feed_limit_reached : Error
  refresh_token_not_found refresh_token_expired : Error
  user_not_found user_already_exists user_preferences_not_found system_not_found : Error

pub data Result {ℓ} (A : Type ℓ) : Type ℓ where
  ok : A → Result A
  err : Error → Result A

-- What an action meets: the database, the time, whether each of the next statements (BEGIN and
-- COMMIT included) fails, and what the next calls of uuid.NewV7 return.
pub record World : Type 0 where
  pub db : Db
  pub now : ℕ
  pub faults : List Bool
  pub uuids : List (Option String)

abbrev pub M : Type 0 → Type 0
M A = World → Result A × World

abbrev pub pure : {A : Type 0} → A → M A
pure a w = (ok a, w)

abbrev pub raise : {A : Type 0} → Error → M A
raise e w = (err e, w)

abbrev pub then_do : {A B : Type 0} → (A → M B) → Result A × World → Result B × World
then_do f (ok a, w) = f a w
then_do f (err e, w) = (err e, w)

infixl 5 ◌>>=◌ ◌>>◌
abbrev pub ◌>>=◌ : {A B : Type 0} → M A → (A → M B) → M B
◌>>=◌ m f w = then_do f (m w)

abbrev pub ◌>>◌ : {A B : Type 0} → M A → M B → M B
m >> k = m >>= λ _. k

-- `if err != nil { ... }` with another error in its place.
abbrev pub on_error : {A : Type 0} → (Error → Error) → Result A × World → Result A × World
on_error f (ok a, w) = (ok a, w)
on_error f (err e, w) = (err (f e), w)

abbrev pub map_err : {A : Type 0} → (Error → Error) → M A → M A
map_err f m w = on_error f (m w)

-- The result as a value, for code that goes on after an error.
abbrev pub caught : {A : Type 0} → Result A × World → Result (Result A) × World
caught (r, w) = (ok r, w)

abbrev pub attempt : {A : Type 0} → M A → M (Result A)
attempt m w = caught (m w)

abbrev pub now_is : M ℕ
now_is w = (ok w.now, w)

abbrev pub faulty : List Bool → Bool
faulty [] = false
faulty (b ∷ bs) = b

abbrev pub rest_of {ℓ} : {A : Type ℓ} → List A → List A
rest_of [] = []
rest_of (x ∷ xs) = xs

unfoldable pub answered : {A : Type 0} → World → Result A × Db → Bool → Result A × World
answered w (r, db) true = (err db_failure, w)
answered w (r, db) false = (r, record w { db = db })

-- One statement: it fails and changes nothing, or it does its work at the time of the call.
unfoldable pub query : {A : Type 0} → (ℕ → Db → Result A × Db) → M A
unfolding answered
query f w = answered (record w { faults = rest_of w.faults }) (f w.now w.db) (faulty w.faults)

-- A statement that only reads.
unfoldable pub read : {A : Type 0} → (ℕ → Db → Result A) → M A
unfolding query
read f = query (λ now db. (f now db, db))

-- A statement that only writes.
unfoldable pub exec : (ℕ → Db → Db) → M (Unit {0})
unfolding query
exec f = query (λ now db. (ok tt, f now db))

abbrev pub uuid_of : Option String → World → Result String × World
uuid_of none w = (err uuid_failure, w)
uuid_of (some id) w = (ok id, w)

abbrev pub next_uuid : List (Option String) → Option String
next_uuid [] = none
next_uuid (u ∷ us) = u

-- uuid.NewV7
unfoldable pub new_uuid : M String
new_uuid w = uuid_of (next_uuid w.uuids) (record w { uuids = rest_of w.uuids })

unfoldable pub committed : {A : Type 0} → Db → A → World → Bool → Result A × World
committed before a w true = (err db_failure, record w { db = before })
committed before a w false = (ok a, w)

-- tx.Commit, or the deferred tx.Rollback.
unfoldable pub finish : {A : Type 0} → Db → Result A × World → Result A × World
unfolding committed
finish before (err e, w) = (err e, record w { db = before })
finish before (ok a, w) =
    committed before a (record w { faults = rest_of w.faults }) (faulty w.faults)

-- `fn` between BeginTx and its end, when BeginTx has been answered.
unfoldable pub begun : {A : Type 0} → M A → Bool → World → Result A × World
unfolding finish
begun fn true w = (err db_failure, w)
begun fn false w = finish w.db (fn w)

-- WithTransaction
unfoldable pub with_transaction : {A : Type 0} → M A → M A
unfolding begun
with_transaction fn w = begun fn (faulty w.faults) (record w { faults = rest_of w.faults })

-- The result of a `:one` query.
abbrev pub one : {A : Type 0} → Option A → Result A
one none = err no_rows
one (some a) = ok a
