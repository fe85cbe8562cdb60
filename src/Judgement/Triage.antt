-- ===== src/Judgement/Triage.antt =====
-- What the triage decides, and what it costs.
use news_feed_backend.Prelude.{
  ℕ, suc, ◌*◌, ◌-◌, ◌≤◌, ◌<◌, String, ◌≡◌, ap, refl, ◌∙◌, true, false, List, [], ◌∷◌, leb, length,
  arith, ltb→lt, Bool-cases, inl, inr, ◌⊎◌,
}
use native.Mathlib.Nat.{mul-le-mul_left, mul-le-mul_right}
use news_feed_backend.Store.{Result, ok, err}
use news_feed_backend.Queries.Feeds.{CandidateRow}
use news_feed_backend.Judgement.{
  auto_associated, judged, discarded, Outcome, Evaluator, is_strong, is_trivial, outcome,
  Evaluation, prepend, scored, evaluate,
}

-- What the two rules say of a candidate, in numbers: the matches reach the ratio of the keywords of
-- its feed, and they are fewer than are needed.
abbrev pub IsStrong : Evaluator → CandidateRow → Type 0
IsStrong e c =
    (0 < length c.feed.keywords)
    × (e.ratio_num * length c.feed.keywords ≤ c.overlap_count * e.ratio_den)

abbrev pub IsTrivial : Evaluator → CandidateRow → Type 0
IsTrivial e c = c.overlap_count < e.min_matches

-- The outcome is about the candidate.
abbrev pub IsAbout : CandidateRow → Outcome → Type 0
IsAbout c o = (o.feed ≡ c.feed) × (o.overlap_count ≡ c.overlap_count)

-- What is decided without the AI.
abbrev pub IsClear : Evaluator → CandidateRow → Type 0
IsClear e c = IsStrong e c ⊎ IsTrivial e c

abbrev pub IsSettled : Evaluator → CandidateRow → Outcome → Type 0
IsSettled e c o =
    (IsStrong e c × ((o.decision ≡ auto_associated) × (o.passed ≡ true)))
    ⊎ ((¬ IsStrong e c) × (IsTrivial e c × ((o.decision ≡ discarded) × (o.passed ≡ false))))

-- What only the AI can decide.
abbrev pub IsBorderline : Evaluator → CandidateRow → Type 0
IsBorderline e c = (¬ IsStrong e c) × (¬ IsTrivial e c)

module _ (judge : ℕ → List String → String → List String → Result ℕ) (e : Evaluator)
    (title : String) (keywords : List String) where
  -- The answer to the call that the candidate makes.
  abbrev pub answer_of : ℕ → CandidateRow → Result ℕ
  answer_of calls c = judge calls c.feed.keywords title keywords

  abbrev pub IsJudged : ℕ → CandidateRow → Outcome → Type 0
  IsJudged calls c o =
      (o.decision ≡ judged)
      × ((answer_of calls c ≡ ok o.score) × (o.passed ≡ leb e.threshold o.score))

  -- What an evaluation is to give, with the number of calls before and after it: an outcome for
  -- each candidate in their order, or the first error of the AI.
  abbrev pub IsRight : List CandidateRow → ℕ → Evaluation → Type 0
  IsRight [] calls (ok [], total) = total ≡ calls
  IsRight [] calls (ok (o ∷ os), total) = ⊥
  IsRight [] calls (err x, total) = ⊥
  IsRight (c ∷ cs) calls (ok [], total) = ⊥
  IsRight (c ∷ cs) calls (ok (o ∷ os), total) =
      IsAbout c o
      × ((IsSettled e c o × IsRight cs calls (ok os, total))
          ⊎ (IsBorderline e c × (IsJudged calls c o × IsRight cs (suc calls) (ok os, total))))
  IsRight (c ∷ cs) calls (err x, total) =
      (IsClear e c × IsRight cs calls (err x, total))
      ⊎ (IsBorderline e c
          × (((answer_of calls c ≡ err x) × (total ≡ suc calls))
              ⊎ (((score : ℕ) × (answer_of calls c ≡ ok score))
                  × IsRight cs (suc calls) (err x, total))))

  module _ (c : CandidateRow) (cs : List CandidateRow) (calls : ℕ) where
    settled-IsRight :
        (o : Outcome) (r : Evaluation)
        → IsAbout c o
        → IsSettled e c o
        → IsClear e c
        → IsRight cs calls r
        → IsRight (c ∷ cs) calls (prepend o r)
    settled-IsRight o (ok os, total) about settled clear h = (about, inl (settled, h))
    settled-IsRight o (err x, total) about settled clear h = inl (clear, h)

    judged-IsRight :
        (score : ℕ) (r : Evaluation)
        → IsBorderline e c
        → answer_of calls c ≡ ok score
        → IsRight cs (suc calls) r
        → IsRight (c ∷ cs) calls (prepend (outcome c judged score (leb e.threshold score)) r)
    judged-IsRight score (ok os, total) undecided given h =
        ((refl, refl), inr (undecided, ((refl, (given, refl)), h)))
    judged-IsRight score (err x, total) undecided given h = inr (undecided, inr ((score, given), h))

    scored-IsRight :
        (r : Evaluation) (answer : Result ℕ)
        → IsBorderline e c
        → answer_of calls c ≡ answer
        → IsRight cs (suc calls) r
        → IsRight (c ∷ cs) calls (scored judge e c r calls answer)
    scored-IsRight r (ok score) undecided given h = judged-IsRight score r undecided given h
    scored-IsRight r (err x) undecided given h = inr (undecided, inl (given, refl))

is_strong_yes : (e : Evaluator) (c : CandidateRow) → is_strong e c ≡ true → IsStrong e c
is_strong_yes e c h = (ground (arith, h), ground (arith, h))

is_strong_no : (e : Evaluator) (c : CandidateRow) → is_strong e c ≡ false → ¬ IsStrong e c
is_strong_no e c h k = ground (arith, h, k.0, k.1)

-- Whatever the AI answers, an evaluation that succeeds gives an outcome for each candidate in their
-- order: a feed whose ratio of keywords is reached takes the article; else it is discarded with too
-- few matches; else the AI is asked, once, and its score decides by the threshold. An evaluation
-- that fails has met such outcomes and then the error of the AI, and has not asked it again.
pub evaluate-IsRight :
    (judge : ℕ → List String → String → List String → Result ℕ) (e : Evaluator)
    (cs : List CandidateRow) (title : String) (keywords : List String) (calls : ℕ)
    → IsRight judge e title keywords cs calls (evaluate judge e cs title keywords calls)
unfolding evaluate
evaluate-IsRight judge e [] title keywords calls = refl
evaluate-IsRight judge e (c ∷ cs) title keywords calls = elim (Bool-cases (is_strong e c)) [
  | inl strong ↦
      let reached = is_strong_yes e c strong in
      rw strong (
        settled-IsRight judge e title keywords c cs calls _ _ (refl, refl)
          (inl (reached, (refl, refl))) (inl reached)
          (evaluate-IsRight judge e cs title keywords calls))
  | inr weak ↦
      let missed = is_strong_no e c weak in
      elim (Bool-cases (is_trivial e c)) [
        | inl few ↦
            let less : IsTrivial e c = ground (arith, few) in
            rw (weak, few)
              (settled-IsRight judge e title keywords c cs calls _ _ (refl, refl)
                (inr (missed, (less, (refl, refl)))) (inr less)
                (evaluate-IsRight judge e cs title keywords calls))
        | inr enough ↦
            rw (weak, enough)
              (scored-IsRight judge e title keywords c cs calls _ _
                (missed, λ less. ground (arith, enough, less)) refl
                (evaluate-IsRight judge e cs title keywords (suc calls)))
      ]
]

-- When the ratio of the fewest keywords a feed may have is above `min_matches - 1`, the ratio does
-- not override the discard rule: a candidate with fewer matches than that is discarded.
pub discard_rule :
    (e : Evaluator) (c : CandidateRow)
    → 5 ≤ length c.feed.keywords
    → (e.min_matches - 1) * e.ratio_den < e.ratio_num * 5
    → is_trivial e c ≡ true
    → is_strong e c ≡ false
discard_rule e c size coherent few =
    let less : c.overlap_count * e.ratio_den ≤ (e.min_matches - 1) * e.ratio_den =
      mul-le-mul_right e.ratio_den (ground (arith, ltb→lt _ _ few)) in
    let more : e.ratio_num * 5 ≤ e.ratio_num * length c.feed.keywords =
      mul-le-mul_left e.ratio_num size in
    ground (arith, less, more, coherent)

-- With equality in place of that bound, which the comment on the Evaluator allows, it does: a feed
-- with the fewest keywords takes an article that has one match less than `min_matches`, without the
-- AI.
pub discard_rule_sharp :
    (judge : ℕ → List String → String → List String → Result ℕ) (e : Evaluator) (c : CandidateRow)
    (title : String) (keywords : List String) (calls : ℕ)
    → length c.feed.keywords ≡ 5
    → 1 ≤ e.min_matches
    → (e.min_matches - 1) * e.ratio_den ≡ e.ratio_num * 5
    → c.overlap_count ≡ e.min_matches - 1
    → (c.overlap_count < e.min_matches)
      × (evaluate judge e (c ∷ []) title keywords calls
          ≡ (ok (outcome c auto_associated 0 true ∷ []), calls))
unfolding evaluate
discard_rule_sharp judge e c title keywords calls size some_needed exact few =
    let same : c.overlap_count * e.ratio_den ≡ e.ratio_num * 5 =
      ap (λ (n : ℕ). n * e.ratio_den) few ∙ exact in
    let strong : is_strong e c ≡ true = rw size (ground (arith, same)) in
    (omega (arith, some_needed, few), rw strong refl)
