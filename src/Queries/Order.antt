-- ===== src/Queries/Order.antt =====
-- What the list queries of sqlc/*.sql.go share: the optional substring filter, ORDER BY created_at
-- DESC, id DESC, and LIMIT with OFFSET.
use Prim.Native.Char.{code}
use Prim.Native.Nat.{Ordering}
use Prim.Native.String
use Prim.Native.String.{[] as end, ◌∷◌ as ◌then◌}
use news_feed_backend.Prelude.{
  ℕ, String, Bool, true, false, ◌&&◌, ◌||◌, Option, none, some, List, [], ◌∷◌, ltb, ◌==◌,
  if◌then◌else◌,
}
use news_feed_backend.Prelude.Int.{ℤ}
use news_feed_backend.Store.{Result, ok, err, db_failure}
use news_feed_backend.Pagination.{window, at_least_zero}

is_prefix : String → String → Bool
is_prefix end s = true
is_prefix (c then p) end = false
is_prefix (c then p) (d then s) = code c == code d && is_prefix p s

-- strpos(text, part) > 0
unfoldable pub has_part : String → String → Bool
unfolding is_prefix
has_part end part = is_prefix part end
has_part (c then s) part = is_prefix part (c then s) || has_part s part

-- `sqlc.narg(part) IS NULL OR strpos(lower(text), lower(part)) > 0`
unfoldable pub passes : (String → String) → Option String → String → Bool
unfolding has_part
passes lower none text = true
passes lower (some part) text = has_part (lower text) (lower part)

-- The columns that a list is ordered by.
pub record Key : Type 0 where
  pub created_at : ℕ
  pub id : String

-- ORDER BY, for the test that the first of two rows stands before the second.
module _ {A : Type 0} (before : A → A → Bool) where
  unfoldable pub insert_sorted : A → List A → List A
  insert_sorted x [] = x ∷ []
  insert_sorted x (y ∷ ys) = if before y x then y ∷ insert_sorted x ys else x ∷ y ∷ ys

  unfoldable pub sorted_by : List A → List A
  unfolding insert_sorted
  sorted_by [] = []
  sorted_by (x ∷ xs) = insert_sorted x (sorted_by xs)

module _ {A : Type 0} (key : A → Key) where
  -- created_at DESC, id DESC
  abbrev pub comes_first : A → A → Bool
  comes_first x y =
      ltb (key y).created_at (key x).created_at
      || ((key x).created_at == (key y).created_at
          && elim (String.compare (key y).id (key x).id) [ Ordering.lt ↦ true | _ ↦ false ])

  abbrev pub sorted : List A → List A
  sorted rows = sorted_by comes_first rows

abbrev pub unless_refused : {A : Type 0} → Option (List A) → Result (List A)
unless_refused none = err db_failure
unless_refused (some rows) = ok rows

-- LIMIT and OFFSET; the database refuses a negative one.
unfoldable pub windowed : {A : Type 0} → ℤ → ℤ → List A → Result (List A)
windowed page_limit page_offset rows =
    unless_refused (window (at_least_zero page_limit) (at_least_zero page_offset) rows)
