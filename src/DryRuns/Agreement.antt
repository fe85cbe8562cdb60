-- ===== src/DryRuns/Agreement.antt =====
-- The dry runs, and the steps of the discovery that they try out.
use Prim.Native.Char.{Char}
use news_feed_backend.Prelude.{
  ℕ, String, ◌≡◌, ◌∙◌, refl, ap, Option, some, List, [], ◌∷◌, map, Bool-cases, inl, inr,
  if◌then◌else◌, arith,
}
use news_feed_backend.Prelude.Int.{ℤ}
use news_feed_backend.Store.{
  Article, Db, World, Result, ok, err, M, pure, ◌>>◌, attempt, with_transaction, begun, finish,
  committed, read, query, answered,
}
use news_feed_backend.Queries.Feeds.{CandidateRow, find_candidate_feeds_by_keywords}
use news_feed_backend.Controllers.ArticlesFeeds
use news_feed_backend.Controllers.Feeds
use news_feed_backend.Judgement.{Evaluator, Outcome, evaluate}
use news_feed_backend.Discovery.Judge.{associate_all, associate_results, judge_candidates, judge}
use news_feed_backend.Endpoints.Reply.{done, respond, with_body}
use news_feed_backend.Reading.FeedSafety.{guarded_done, with_body_done}
use news_feed_backend.DryRuns.Judging.{
  Judger, FeedJudgement, ArticleJudgementResponse, mode_or, to_judgement, judged_response,
  judge_with, judge_article,
}

-- The feeds that a dry run reports as passed.
unfoldable pub passed_feeds : List FeedJudgement → List String
passed_feeds [] = []
passed_feeds (j ∷ rest) = if j.passed then j.feed_id ∷ passed_feeds rest else passed_feeds rest

-- The article into each of the feeds, in a transaction of its own that may fail.
unfoldable pub associate_feeds : String → List String → M (Unit {0})
associate_feeds article_id [] = pure tt
associate_feeds article_id (f ∷ fs) = do
  attempt (with_transaction (ArticlesFeeds.create article_id f))
  associate_feeds article_id fs

associate_all_lem :
    (article_id : String) (outcomes : List Outcome) (w : World)
    → associate_all article_id outcomes w
      ≡ associate_feeds article_id (passed_feeds (map to_judgement outcomes)) w
unfolding associate_all associate_feeds passed_feeds
associate_all_lem article_id [] w = refl
associate_all_lem article_id (o ∷ outcomes) w = elim (Bool-cases o.passed) [
  | inl passed ↦ rw passed (associate_all_lem article_id outcomes _)
  | inr missed ↦ rw missed (associate_all_lem article_id outcomes w)
]

module _ (lower : Char → Char) (evaluator : Evaluator) (inactive_days : ℤ) (db : Db) (now : ℕ)
    (uuids : List (Option String)) where
  abbrev here : World
  here = record { db = db; now = now; faults = []; uuids = uuids }

  candidates_here :
      (keywords : List String)
      → (cs : List CandidateRow) × (with_transaction
            (Feeds.find_candidates_by_keywords lower keywords inactive_days)
            here
          ≡ (ok cs, here))
  unfolding with_transaction begun finish committed Feeds.find_candidates_by_keywords
      find_candidate_feeds_by_keywords read query answered
  candidates_here [] = ([], refl)
  candidates_here (k ∷ ks) = (_, refl)

  judge_candidates_lem :
      (ask : Judger) (article : Article) (keywords : List String) (cs : List CandidateRow)
      → judge_candidates lower ask evaluator inactive_days article keywords (ok cs)
        ≡ associate_results article.id (evaluate ask evaluator cs article.title keywords 0).0
  unfolding evaluate associate_all
  judge_candidates_lem ask article keywords [] = refl
  judge_candidates_lem ask article keywords (c ∷ cs) = refl

  judge_here :
      (ask : Judger) (article : Article) (keywords : List String)
      → judge lower ask evaluator inactive_days article keywords here
        ≡ associate_results article.id
            (evaluate ask evaluator (candidates_here keywords).0 article.title keywords 0).0
            here
  unfolding judge
  judge_here ask article keywords =
      rw (candidates_here keywords).1
        (ap (λ m. m here) (judge_candidates_lem ask article keywords (candidates_here keywords).0))

  judge_with-here :
      (ask : Judger) (mode title article_id : String) (keywords : List String)
      (results : Result (List Outcome)) (status : ℕ) (r : ArticleJudgementResponse)
      → (evaluate ask evaluator (candidates_here keywords).0 title keywords 0).0 ≡ results
      → (judge_with lower evaluator inactive_days mode ask title keywords here).0 ≡ done status r
      → associate_results article_id results here
        ≡ associate_feeds article_id (passed_feeds r.judgements) here
  unfolding judge_with respond
  judge_with-here ask mode title article_id keywords (err e) status r same h =
      absurd (ground (arith, rw ((candidates_here keywords).1, same) at h))
  judge_with-here ask mode title article_id keywords (ok outcomes) status r same h =
      let shown : judged_response lower evaluator inactive_days mode (candidates_here keywords).0
            outcomes
          ≡ r =
        done_inj (rw ((candidates_here keywords).1, same) at h) in
      associate_all_lem article_id outcomes here
      ∙ ap (λ x. associate_feeds article_id (passed_feeds x.judgements) here) shown
    where
      done_inj : {s t : ℕ} {x y : ArticleJudgementResponse} → done s x ≡ done t y → x ≡ y
      done_inj e = cc

  -- While no statement fails, when the dry run of the judgement answers for the title and the
  -- keywords of an article, the judgement of the discovery puts the article into the feeds that the
  -- dry run reports as passed, and does nothing else, if it has the AI of the mode.
  pub judge_article-agrees :
      (judgers : String → Option Judger) (default_mode mode : String) (article : Article)
      (keywords : List String) (status : ℕ) (r : ArticleJudgementResponse)
      → (judge_article lower evaluator inactive_days judgers default_mode
          (some (record { title = article.title; keywords = keywords; judgement_mode = mode }))
          here).0
        ≡ done status r
      → (ask : Judger) × ((judgers (mode_or default_mode mode) ≡ some ask)
          × (judge lower ask evaluator inactive_days article keywords here
              ≡ associate_feeds article.id (passed_feeds r.judgements) here))
  unfolding judge_article with_body
  judge_article-agrees judgers default_mode mode article keywords status r e =
      let titled = guarded_done _ _ here status r e in
      let worded = guarded_done _ _ here status r titled in
      let asked = with_body_done (judgers (mode_or default_mode mode)) _ here status r worded in
      (
        asked.0,
        (
          asked.1.0,
          judge_here asked.0 article keywords
              ∙ judge_with-here asked.0 (mode_or default_mode mode) article.title article.id
                  keywords _ status r refl asked.1.1,
        ),
      )
