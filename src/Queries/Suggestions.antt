-- ===== src/Queries/Suggestions.antt =====
-- SuggestPopularKeywords and SuggestRelatedKeywords of sqlc/articles.sql.go.
use Prim.Native.Nat.{Ordering}
use Prim.Native.String
use news_feed_backend.Prelude.{
  ℕ, suc, String, str_eq, Bool, true, false, not, ◌&&◌, ◌||◌, List, [], ◌∷◌, ◌++◌, ltb, leb, ◌==◌,
  select, exists, take, if◌then◌else◌,
}
use news_feed_backend.Store.{Article, M, read, ok}
use news_feed_backend.Queries.Feeds.{carries}
use news_feed_backend.Queries.Listing.{is_live_article}
use news_feed_backend.Queries.Order.{sorted_by}

pub record KeywordRow : Type 0 where
  pub keyword : String
  pub occurrences : ℕ

-- CROSS JOIN LATERAL jsonb_array_elements_text(a.keywords), for the articles that the test selects.
unfoldable pub keyword_rows : (Article → Bool) → List Article → List String
keyword_rows test [] = []
keyword_rows test (a ∷ rest) =
    let others = keyword_rows test rest in if test a then a.keywords ++ others else others

unfoldable pub count_in : String → List KeywordRow → List KeywordRow
count_in k [] = record { keyword = k; occurrences = 1 } ∷ []
count_in k (r ∷ rest) =
    let others = count_in k rest in
    if str_eq r.keyword k then record r { occurrences = suc r.occurrences } ∷ rest else r ∷ others

-- GROUP BY kw.value, with COUNT(*)
unfoldable pub grouped : List String → List KeywordRow
unfolding count_in
grouped [] = []
grouped (k ∷ ks) = count_in k (grouped ks)

-- ORDER BY occurrences DESC, keyword ASC
abbrev pub ranks_first : KeywordRow → KeywordRow → Bool
ranks_first r s =
    ltb s.occurrences r.occurrences
    || (r.occurrences == s.occurrences
        && elim (String.compare r.keyword s.keyword) [ Ordering.lt ↦ true | _ ↦ false ])

-- WHERE kw.value <> ALL(excluded)
abbrev pub is_fresh : List String → String → Bool
is_fresh excluded k = not (carries excluded k)

unfoldable pub ranked : List String → ℕ → List String → List KeywordRow
unfolding grouped
ranked excluded result_limit keywords =
    take result_limit (sorted_by ranks_first (grouped (select (is_fresh excluded) keywords)))

abbrev pub is_recent : ℕ → Article → Bool
is_recent since a = is_live_article a && leb since a.created_at

unfoldable pub suggest_popular_keywords : ℕ → List String → ℕ → M (List KeywordRow)
unfolding ranked keyword_rows
suggest_popular_keywords since excluded result_limit =
    read (λ now db. ok (ranked excluded result_limit (keyword_rows (is_recent since) db.articles)))

-- keywords ?| selected
abbrev pub is_related : List String → Article → Bool
is_related selected a = is_live_article a && exists (λ (k : String). carries a.keywords k) selected

unfoldable pub suggest_related_keywords : List String → ℕ → M (List KeywordRow)
unfolding ranked keyword_rows
suggest_related_keywords selected result_limit =
    read
      (λ now db. ok (ranked selected result_limit (keyword_rows (is_related selected) db.articles)))
