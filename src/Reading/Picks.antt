-- ===== src/Reading/Picks.antt =====
-- SuggestKeywords of services/endpoints/v1/feeds/keyword_suggestions.go: what it reads of the
-- query, and what it answers.
use Prim.Native.Char.{Char}
use news_feed_backend.Prelude.{
  ℕ, ◌≤◌, String, str_eq, ◌≡◌, refl, subst, false, Option, some, some-injective, List, [], ◌∷◌,
  ◌++◌, length, ltb, All, All-append, All-exists, Pairwise, Bool-cases, inl, inr, arith,
}
use news_feed_backend.Prelude.Int.{ℤ}
use news_feed_backend.Store.{World, with_transaction-Leads}
use news_feed_backend.Pagination.{clamp_above, or_default}
use news_feed_backend.Pagination.Bounds.{clamp_below-le}
use news_feed_backend.Queries.Feeds.{carries}
use news_feed_backend.Controllers.Keywords.{trim_space, to_lower}
use news_feed_backend.Controllers.Suggestions.{Suggestions}
use news_feed_backend.Endpoints.Reply.{done}
use news_feed_backend.Reading.Suggestions.{
  split, kept_keyword, add_parts, parse_selected_keywords, parse_suggestion_limit, suggestion_since,
  suggest, feed_keywords_max, max_limit,
}
use news_feed_backend.Reading.FeedSafety.{respond_ok, with_body_done}
use news_feed_backend.Reading.Ranking.{IsAnswer, suggest_keywords-IsAnswer}

abbrev Differs : String → String → Type 0
Differs x y = str_eq x y ≡ false

abbrev IsNamed : String → Type 0
IsNamed k = str_eq k "" ≡ false

-- The keywords are different and not empty.
pub record AreClean (ks : List String) : Type 0 where
  pub different : Pairwise (λ (x : String) (y : String). str_eq x y ≡ false) ks
  pub named : All (λ (k : String). str_eq k "" ≡ false) ks

differ-append :
    (ks : List String) (k : String)
    → Pairwise Differs ks
    → All (λ x. Differs x k) ks
    → Pairwise Differs (ks ++ (k ∷ []))
differ-append [] k h d = (tt, tt)
differ-append (x ∷ xs) k (q, h) (p, d) =
    (All-append (Differs x) xs (k ∷ []) q (p, tt), differ-append xs k h d)

kept_keyword-AreClean :
    (out : List String) (kw : String) → AreClean out → AreClean (kept_keyword out kw)
kept_keyword-AreClean out kw h = elim (Bool-cases (str_eq kw "")) [
  | inl blank ↦ rw blank h
  | inr named ↦ elim (Bool-cases (carries out kw)) [
    | inl seen ↦ rw (named, seen) h
    | inr new ↦
        rw (named, new)
          (record {
            different =
                differ-append out kw h.different (All-exists (λ (x : String). str_eq x kw) out new);
            named = All-append IsNamed out (kw ∷ []) h.named (named, tt);
          })
  ]
]

module _ (lower : Char → Char) where
  pub add_parts-AreClean :
      (parts out : List String) → AreClean out → AreClean (add_parts lower out parts)
  unfolding add_parts
  add_parts-AreClean [] out h = h
  add_parts-AreClean (part ∷ parts) out h =
      add_parts-AreClean parts (kept_keyword out (to_lower lower (trim_space part)))
        (kept_keyword-AreClean out (to_lower lower (trim_space part)) h)

  pub no_picks : AreClean []
  no_picks = record { different = tt; named = tt }

  -- What is parsed of the keywords are at most as many as a feed holds, different and not empty.
  parse_selected_keywords-AreClean :
      (raw : String) (ks : List String)
      → parse_selected_keywords lower raw ≡ some ks
      → AreClean ks × (length ks ≤ feed_keywords_max)
  unfolding parse_selected_keywords
  parse_selected_keywords-AreClean raw ks e = elim (Bool-cases (str_eq (trim_space raw) "")) [
    | inl blank ↦
        subst (λ xs. AreClean xs × (length xs ≤ feed_keywords_max))
          (some-injective [] ks (rw blank at e)) (no_picks, omega arith)
    | inr named ↦
        let out = add_parts lower [] (split raw) in
        elim (Bool-cases (ltb feed_keywords_max (length out))) [
          | inl many ↦ absurd (ground (arith, e, named, many))
          | inr few ↦
              subst (λ xs. AreClean xs × (length xs ≤ feed_keywords_max))
                (some-injective out ks (rw (named, few) at e))
                (add_parts-AreClean (split raw) [] no_picks, ground (arith, few))
        ]
  ]

  -- When SuggestKeywords answers, whatever statements fail: the picks of the query parse to
  -- different keywords, 20 at most, that are not empty, the limit is between 1 and 50, and the
  -- suggestions are ranked by how often the articles carry them, are different and none of the
  -- picks, and none that is left out is more frequent than one of them or would still have a place;
  -- they are taken from the articles related to the picks, or, only if these carry nothing but
  -- picks, from the popular ones.
  pub suggest-IsAnswer :
      (atoi : String → Option ℤ) (window_days : ℤ) (keywords limit_raw : String) (w : World)
      (status : ℕ) (r : Suggestions)
      → (suggest lower atoi window_days keywords limit_raw w).0 ≡ done status r
      → (picked : List String) × ((parse_selected_keywords lower keywords ≡ some picked)
          × ((AreClean picked × (length picked ≤ feed_keywords_max))
              × (((1 ≤ parse_suggestion_limit atoi limit_raw)
                    × (parse_suggestion_limit atoi limit_raw ≤ max_limit))
                  × IsAnswer lower picked
                      (suggestion_since window_days w.now)
                      (parse_suggestion_limit atoi limit_raw)
                      w.db
                      r.strategy
                      r.suggestions)))
  unfolding suggest parse_suggestion_limit clamp_above
  suggest-IsAnswer atoi window_days keywords limit_raw w status r e =
      let parsed = with_body_done (parse_selected_keywords lower keywords) _ w status r e in
      let since = suggestion_since window_days w.now in
      let limit = parse_suggestion_limit atoi limit_raw in
      let answered =
        with_transaction-Leads (λ d. d ≡ w.db) _
          (suggest_keywords-IsAnswer lower parsed.0 since limit w.db) in
      (
        parsed.0,
        (
          parsed.1.0,
          (
            parse_selected_keywords-AreClean keywords parsed.0 parsed.1.0,
            (
              (ground (arith, clamp_below-le 1 (or_default 10 (atoi limit_raw))), ground arith),
              answered.at w refl r (respond_ok _ _ _ w status r parsed.1.1),
            ),
          ),
        ),
      )
