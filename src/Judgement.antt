-- ===== src/Judgement.antt =====
-- services/judgement/judgement.go. The ratio is a fraction: for the few keywords of a feed and a
-- ratio of a few decimals, the comparison of the two float64 values has the same result.
pub mod Triage
use news_feed_backend.Prelude.{
  ℕ, suc, ◌+◌, ◌*◌, String, Bool, true, false, ◌&&◌, List, [], ◌∷◌, ltb, leb, if◌then◌else◌, length,
}
use news_feed_backend.Store.{Feed, Error, Result, ok, err}
use news_feed_backend.Queries.Feeds.{CandidateRow}

pub data Decision : Type 0 where
  auto_associated judged discarded : Decision

pub record Outcome : Type 0 where
  pub feed : Feed
  pub overlap_count : ℕ
  pub decision : Decision
  pub score : ℕ
  pub passed : Bool

-- The configuration: the ratio is `ratio_num / ratio_den`.
pub record Evaluator : Type 0 where
  pub threshold : ℕ
  pub ratio_num : ℕ
  pub ratio_den : ℕ
  pub min_matches : ℕ

-- `float64(cand.OverlapCount)/float64(len(feedKeywords)) >= e.autoAssociateRatio`
abbrev pub reaches_ratio : Evaluator → CandidateRow → Bool
reaches_ratio e c = leb (e.ratio_num * length c.feed.keywords) (c.overlap_count * e.ratio_den)

-- The first two cases of the switch.
abbrev pub is_strong : Evaluator → CandidateRow → Bool
is_strong e c = ltb 0 (length c.feed.keywords) && reaches_ratio e c

abbrev pub is_trivial : Evaluator → CandidateRow → Bool
is_trivial e c = ltb c.overlap_count e.min_matches

abbrev pub outcome : CandidateRow → Decision → ℕ → Bool → Outcome
outcome c decision score passed = record {
  feed = c.feed;
  overlap_count = c.overlap_count;
  decision = decision;
  score = score;
  passed = passed;
}

-- What the evaluation returns, with the number of calls of the AI so far.
abbrev pub Evaluation : Type 0
Evaluation = Result (List Outcome) × ℕ

abbrev pub prepend : Outcome → Evaluation → Evaluation
prepend o (ok os, calls) = (ok (o ∷ os), calls)
prepend o (err e, calls) = (err e, calls)

-- `judge` is the AI: what it answers depends on the call, counted from 0, and on the arguments.
module _ (judge : ℕ → List String → String → List String → Result ℕ) (e : Evaluator) where
  abbrev pub scored : CandidateRow → Evaluation → ℕ → Result ℕ → Evaluation
  scored c rest calls (ok score) = prepend (outcome c judged score (leb e.threshold score)) rest
  scored c rest calls (err x) = (err x, suc calls)

  unfoldable pub evaluate : List CandidateRow → String → List String → ℕ → Evaluation
  evaluate [] title keywords calls = (ok [], calls)
  evaluate (c ∷ cs) title keywords calls =
      let strong = is_strong e c in
      let trivial = is_trivial e c in
      let rest =
        evaluate cs title keywords
          (if strong then calls else if trivial then calls else suc calls) in
      if strong
      then prepend (outcome c auto_associated 0 true) rest
      else if trivial
      then prepend (outcome c discarded 0 false) rest
      else scored c rest calls (judge calls c.feed.keywords title keywords)
