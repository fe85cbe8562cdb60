-- ===== src/Controllers/Suggestions.antt =====
-- SuggestKeywords of services/controllers/articles.go. `lower` is unicode.ToLower.
use Prim.Native.Char.{Char}
use news_feed_backend.Prelude.{ℕ, String, List, [], ◌∷◌}
use news_feed_backend.Store.{M, pure, ◌>>=◌}
use news_feed_backend.Queries.Suggestions.{
  KeywordRow, suggest_popular_keywords, suggest_related_keywords,
}
use news_feed_backend.Controllers.Keywords.{normalize_keywords, encode_keywords}

-- The strategies of schemas/keyword_suggestions.go.
pub data Strategy : Type 0 where
  related popular : Strategy

pub record Suggestions : Type 0 where
  pub strategy : Strategy
  pub suggestions : List KeywordRow

module _ (lower : Char → Char) where
  abbrev pub suggest_popular : List String → ℕ → ℕ → M Suggestions
  suggest_popular selected since limit = do
    rows ← suggest_popular_keywords since (encode_keywords lower selected) limit
    pure (record { strategy = popular; suggestions = rows })

  abbrev pub unless_empty : List String → ℕ → ℕ → List KeywordRow → M Suggestions
  unless_empty selected since limit [] = suggest_popular selected since limit
  unless_empty selected since limit (r ∷ rs) =
      pure (record { strategy = related; suggestions = r ∷ rs })

  unfoldable pub suggest_keywords : List String → ℕ → ℕ → M Suggestions
  suggest_keywords [] since limit = suggest_popular [] since limit
  suggest_keywords (k ∷ ks) since limit = do
    rows ← suggest_related_keywords (normalize_keywords lower (k ∷ ks)) limit
    unless_empty (k ∷ ks) since limit rows
