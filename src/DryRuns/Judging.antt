-- ===== src/DryRuns/Judging.antt =====
-- services/endpoints/v1/articles/judgement.go. `lower` is unicode.ToLower; a mode names an AI,
-- which answers each call as it likes. The time that the judgement takes is left out.
use Prim.Native.Char.{Char}
use news_feed_backend.Prelude.{
  ℕ, String, str_eq, Bool, Option, List, [], ◌∷◌, length, map, if◌then◌else◌,
}
use news_feed_backend.Prelude.Int.{ℤ}
use news_feed_backend.Store.{Result, ok, err, M, pure, raise, ◌>>=◌, with_transaction}
use news_feed_backend.Queries.Feeds.{CandidateRow}
use news_feed_backend.Controllers.Feeds
use news_feed_backend.Judgement.{Decision, Evaluator, Outcome, evaluate}
use news_feed_backend.Endpoints.Reply.{Handler, respond, guarded, with_body}
use news_feed_backend.Endpoints.Sessions.{internal_failure}
use news_feed_backend.Endpoints.Validation.{is_blank}

-- One call of an AI, as in `Judgement`.
abbrev pub Judger : Type 0
Judger = ℕ → List String → String → List String → Result ℕ

pub record JudgeArticleRequest : Type 0 where
  pub title : String
  pub keywords : List String
  pub judgement_mode : String

pub record FeedJudgement : Type 0 where
  pub feed_id : String
  pub feed_name : String
  pub overlap : ℕ
  pub decision : Decision
  pub score : ℕ
  pub passed : Bool

pub record ArticleJudgementResponse : Type 0 where
  pub judgement_mode : String
  pub threshold : ℕ
  pub candidate_count : ℕ
  pub judgements : List FeedJudgement

abbrev pub title_message : String → String
title_message title = if is_blank title then "article.title is required" else ""

abbrev pub keywords_message : List String → String
keywords_message [] = "article.keywords is required"
keywords_message (k ∷ ks) = ""

abbrev pub mode_or : String → String → String
mode_or default_mode mode = if str_eq mode "" then default_mode else mode

-- `if err != nil`, on a value.
abbrev pub of_result : {A : Type 0} → Result A → M A
of_result (ok a) = pure a
of_result (err e) = raise e

abbrev pub to_judgement : Outcome → FeedJudgement
to_judgement o = record {
  feed_id = o.feed.id;
  feed_name = o.feed.name;
  overlap = o.overlap_count;
  decision = o.decision;
  score = o.score;
  passed = o.passed;
}

module _ (lower : Char → Char) (evaluator : Evaluator) (inactive_days : ℤ) where
  abbrev pub judged_response : String → List CandidateRow → List Outcome → ArticleJudgementResponse
  judged_response mode candidates results = record {
    judgement_mode = mode;
    threshold = evaluator.threshold;
    candidate_count = length candidates;
    judgements = map to_judgement results;
  }

  -- Behind the guards.
  unfoldable pub judge_with :
      String → Judger → String → List String → Handler ArticleJudgementResponse
  judge_with mode ask title keywords = respond 200 internal_failure (
      with_transaction (Feeds.find_candidates_by_keywords lower keywords inactive_days)
      >>= λ candidates.
          of_result (evaluate ask evaluator candidates title keywords 0).0 >>= λ results.
          pure (judged_response mode candidates results))

  unfoldable pub judge_article :
      (String → Option Judger)
      → String
      → Option JudgeArticleRequest
      → Handler ArticleJudgementResponse
  unfolding judge_with
  judge_article judgers default_mode body = with_body body λ r. guarded (title_message r.title) (
      guarded (keywords_message r.keywords) (
        with_body (judgers (mode_or default_mode r.judgement_mode))
          λ ask. judge_with (mode_or default_mode r.judgement_mode) ask r.title r.keywords))
