-- ===== src/Controllers/Filters.antt =====
-- services/controllers/filters.go. An instant is a number, so nullableTime changes nothing in it.
use news_feed_backend.Prelude.{ℕ, String, str_eq, Bool, Option, none, some, if◌then◌else◌}
use news_feed_backend.Pagination.{Params}

pub record ListArticlesFilter : Type 0 where
  pub url : String
  pub page : Params

pub record ListSourcesFilter : Type 0 where
  pub url : String
  pub name : String
  pub page : Params

pub record ListFeedsFilter : Type 0 where
  pub name : String
  pub page : Params

pub record ListFeedArticlesFilter : Type 0 where
  pub is_read : Option Bool
  pub period_starting_at : Option ℕ
  pub period_ending_at : Option ℕ
  pub page : Params

-- An empty text is NULL.
unfoldable pub nullable_string : String → Option String
nullable_string value = if str_eq value "" then none else some value

unfoldable pub nullable_bool : Option Bool → Option Bool
nullable_bool none = none
nullable_bool (some b) = some b

unfoldable pub nullable_time : Option ℕ → Option ℕ
nullable_time none = none
nullable_time (some t) = some t
