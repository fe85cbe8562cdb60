-- ===== src/Reading/Suggestions.antt =====
-- services/endpoints/v1/feeds/keyword_suggestions.go. `lower` is unicode.ToLower and `atoi` is
-- strconv.Atoi.
use Prim.Native.Char.{Char, code}
use Prim.Native.String.{[] as end, ◌∷◌ as ◌then◌}
use news_feed_backend.Prelude.{
  ℕ, ◌-◌, ◌*◌, String, str_eq, Option, none, some, List, [], ◌∷◌, ◌++◌, ltb, ◌==◌, length,
  if◌then◌else◌,
}
use news_feed_backend.Prelude.Int.{ℤ, pos, negsuc}
use news_feed_backend.Store.{◌>>=◌, now_is, with_transaction}
use news_feed_backend.Pagination.{or_default, clamp_below, clamp_above}
use news_feed_backend.Queries.Feeds.{carries, day}
use news_feed_backend.Controllers.Keywords.{trim_space, to_lower}
use news_feed_backend.Controllers.Suggestions.{Suggestions, suggest_keywords}
use news_feed_backend.Endpoints.Reply.{Handler, respond, with_body}
use news_feed_backend.Endpoints.Sessions.{internal_failure}

abbrev pub default_limit : ℕ
default_limit = 10

abbrev pub max_limit : ℕ
max_limit = 50

-- schemas.FeedKeywordsMax
abbrev pub feed_keywords_max : ℕ
feed_keywords_max = 20

abbrev pub with_letter : Char → List String → List String
with_letter c [] = (c then end) ∷ []
with_letter c (part ∷ parts) = (c then part) ∷ parts

-- strings.Split(raw, ",")
unfoldable pub split : String → List String
split end = end ∷ []
split (c then s) =
    let parts = split s in if code c == 0x2c then end ∷ parts else with_letter c parts

unfoldable pub parse_suggestion_limit : (String → Option ℤ) → String → ℕ
parse_suggestion_limit atoi raw =
    clamp_above max_limit (clamp_below 1 (or_default default_limit (atoi raw)))

-- No row is older than the epoch, which is 0, so that an earlier bound is as good as it.
unfoldable pub suggestion_since : ℤ → ℕ → ℕ
suggestion_since (pos n) now = now - n * day
suggestion_since (negsuc n) now = 0

abbrev pub kept_keyword : List String → String → List String
kept_keyword out kw = if str_eq kw "" then out else if carries out kw then out else out ++ (kw ∷ [])

module _ (lower : Char → Char) where
  -- The loop; `seen` holds what `out` does.
  unfoldable pub add_parts : List String → List String → List String
  add_parts out [] = out
  add_parts out (part ∷ parts) =
      add_parts (kept_keyword out (to_lower lower (trim_space part))) parts

  -- An error if the keywords are too many.
  unfoldable pub parse_selected_keywords : String → Option (List String)
  unfolding split add_parts
  parse_selected_keywords raw =
      if str_eq (trim_space raw) ""
      then some []
      else if ltb feed_keywords_max (length (add_parts [] (split raw)))
      then none
      else some (add_parts [] (split raw))

  unfoldable pub suggest : (String → Option ℤ) → ℤ → String → String → Handler Suggestions
  suggest atoi window_days keywords limit = with_body (parse_selected_keywords keywords) λ selected.
      respond 200 internal_failure (
        now_is >>= λ now. with_transaction (
          suggest_keywords lower selected (suggestion_since window_days now)
            (parse_suggestion_limit atoi limit)))
