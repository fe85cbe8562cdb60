-- ===== src/Examples/Suggestions.antt =====
-- Suggestions beside one picked keyword.
use news_feed_backend.Prelude.{◌≤◌, String, ◌≡◌, refl, some, List, [], ◌∷◌, select, exists, length}
use news_feed_backend.Prelude.Int.{pos}
use news_feed_backend.Store.{with_transaction, begun, finish, committed, read, query, answered}
use news_feed_backend.Pagination.{clamp_below, clamp_above}
use news_feed_backend.Queries.Order.{insert_sorted, sorted_by}
use news_feed_backend.Queries.Suggestions.{
  keyword_rows, grouped, count_in, ranked, suggest_related_keywords,
}
use news_feed_backend.Controllers.Keywords.{normalize_keywords, trim_space, to_lower}
use news_feed_backend.Controllers.Suggestions.{Suggestions, related, suggest_keywords}
use news_feed_backend.Endpoints.Reply.{respond, with_body}
use news_feed_backend.Outcomes.Tokens.{calm}
use news_feed_backend.Reading.Suggestions.{
  split, add_parts, parse_selected_keywords, parse_suggestion_limit, suggestion_since, suggest,
}
use news_feed_backend.Reading.Picks.{AreClean, suggest-IsAnswer}
use news_feed_backend.Reading.Ranking.{IsAnswer}
use news_feed_backend.Examples.Data.{lower_same}
use news_feed_backend.Examples.Reading.{reading_db, count_letters}

-- The story has "sea", "ship", "port", "wind" and "tide".
abbrev three_suggestions : Suggestions
three_suggestions = record {
  strategy = related;
  suggestions =
      record { keyword = "port"; occurrences = 1 }
      ∷ record { keyword = "ship"; occurrences = 1 }
      ∷ record { keyword = "tide"; occurrences = 1 }
      ∷ [];
}

suggest-IsAnswer_example :
    (picked : List String) × ((parse_selected_keywords lower_same " sea,sea" ≡ some picked)
      × ((AreClean picked × (length picked ≤ 20))
          × (((1 ≤ parse_suggestion_limit count_letters "xxx")
                × (parse_suggestion_limit count_letters "xxx" ≤ 50))
              × IsAnswer lower_same picked
                  (suggestion_since (pos 7) 10)
                  (parse_suggestion_limit count_letters "xxx")
                  reading_db
                  related
                  three_suggestions.suggestions)))
unfolding suggest suggest_keywords suggest_related_keywords ranked keyword_rows grouped count_in
    insert_sorted sorted_by select exists normalize_keywords trim_space to_lower split add_parts
    parse_selected_keywords parse_suggestion_limit suggestion_since clamp_below clamp_above respond
    with_body with_transaction begun finish committed read query answered
suggest-IsAnswer_example =
    suggest-IsAnswer lower_same count_letters (pos 7) " sea,sea" "xxx" (calm reading_db 10 []) 200
      three_suggestions refl
