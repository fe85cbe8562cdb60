-- ===== src/Discovery/Judge.antt =====
-- judge of services/discovery/processor.go: the article goes into the feeds that the triage passes.
-- A failure is logged and ends the judgement, or the association of one feed; it is no error of the
-- action.
use Prim.Native.Char.{Char}
use news_feed_backend.Prelude.{ℕ, String, Bool, true, false, List, [], ◌∷◌}
use news_feed_backend.Prelude.Int.{ℤ}
use news_feed_backend.Store.{
  Article, Result, ok, err, M, pure, ◌>>=◌, ◌>>◌, attempt, with_transaction,
}
use news_feed_backend.Queries.Feeds.{CandidateRow}
use news_feed_backend.Controllers.Feeds
use news_feed_backend.Controllers.ArticlesFeeds
use news_feed_backend.Judgement.{Evaluator, Outcome, evaluate}

-- One passed feed in a transaction of its own.
abbrev pub associate_if : Bool → String → String → M (Unit {0})
associate_if false article_id feed_id = pure tt
associate_if true article_id feed_id = do
  attempt (with_transaction (ArticlesFeeds.create article_id feed_id))
  pure tt

unfoldable pub associate_all : String → List Outcome → M (Unit {0})
associate_all article_id [] = pure tt
associate_all article_id (o ∷ outcomes) = do
  associate_if o.passed article_id o.feed.id
  associate_all article_id outcomes

abbrev pub associate_results : String → Result (List Outcome) → M (Unit {0})
associate_results article_id (err e) = pure tt
associate_results article_id (ok outcomes) = associate_all article_id outcomes

-- `ask` is the AI, as in `Judgement`.
module _ (lower : Char → Char) (ask : ℕ → List String → String → List String → Result ℕ)
    (evaluator : Evaluator) (inactive_days : ℤ) where
  abbrev pub judge_candidates : Article → List String → Result (List CandidateRow) → M (Unit {0})
  judge_candidates article keywords (err e) = pure tt
  judge_candidates article keywords (ok []) = pure tt
  judge_candidates article keywords (ok (c ∷ candidates)) =
      associate_results article.id
        (evaluate ask evaluator (c ∷ candidates) article.title keywords 0).0

  unfoldable pub judge : Article → List String → M (Unit {0})
  judge article keywords = do
    candidates ←
        attempt (with_transaction (Feeds.find_candidates_by_keywords lower keywords inactive_days))
    judge_candidates article keywords candidates
