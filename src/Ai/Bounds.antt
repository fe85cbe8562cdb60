-- ===== src/Ai/Bounds.antt =====
-- What the parsers of services/ai let through.
use Prim.Native.Char.{Char}
use news_feed_backend.Prelude.{
  ℕ, ◌≤◌, String, ◌≡◌, subst, Option, none, some, some-injective, List, length, ltb, Bool-cases,
  inl, inr, arith,
}
use news_feed_backend.Prelude.Int.{ℤ, pos, negsuc}
use news_feed_backend.Ai.Answers.{
  article_keywords_min, article_keywords_max, parse_score, if_in_range, decode_score, cleaned,
}
use news_feed_backend.Reading.Picks.{AreClean}

-- The keywords of an article, as they may be stored.
pub record AreKeywords (ks : List String) : Type 0 where
  pub clean : AreClean ks
  pub low : article_keywords_min ≤ length ks
  pub high : length ks ≤ article_keywords_max

if_in_range_le :
    (as_score : String → Option (Option ℤ)) (atoi : String → Option ℤ) (decoded : Option ℤ) (n : ℕ)
    → if_in_range as_score atoi decoded ≡ some n
    → n ≤ 100
if_in_range_le as_score atoi none n e = absurd (ground arith)
if_in_range_le as_score atoi (some (negsuc k)) n e = absurd (ground arith)
if_in_range_le as_score atoi (some (pos k)) n e = elim (Bool-cases (ltb 100 k)) [
  | inl above ↦ absurd (ground (arith, rw above at e))
  | inr within ↦ subst (λ x. x ≤ 100) (some-injective k n (rw within at e)) (ground (arith, within))
]

-- Whatever a model answers, a score that is read of it is at most 100.
pub parse_score_le :
    (as_score : String → Option (Option ℤ)) (atoi : String → Option ℤ) (raw : String) (n : ℕ)
    → parse_score as_score atoi raw ≡ some n
    → n ≤ 100
unfolding parse_score
parse_score_le as_score atoi raw n e =
    if_in_range_le as_score atoi (decode_score as_score atoi (cleaned raw)) n e
