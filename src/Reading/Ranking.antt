-- ===== src/Reading/Ranking.antt =====
-- SuggestKeywords of services/controllers/articles.go: what it suggests, and how it is ranked.
use Prim.Native.Char.{Char}
use news_feed_backend.Prelude.{
  ℕ, zero, suc, ◌≤◌, String, str_eq, ◌≡◌, ◌∙◌, refl, sym, ap, subst, true, exists, List, [], ◌∷◌,
  select, count_where, take, length, length-take, All, All-map, All-select, Pairwise, arith,
}
use news_feed_backend.Store.{Article, Db, ok, Leads, >>=-Leads, read-Leads, pure-Leads}
use news_feed_backend.Queries.Order.{sorted_by}
use news_feed_backend.Queries.Suggestions.{
  KeywordRow, keyword_rows, grouped, ranked, ranks_first, is_fresh, is_recent, is_related,
  suggest_popular_keywords, suggest_related_keywords,
}
use news_feed_backend.Controllers.Keywords.{normalize_keywords, encode_keywords}
use news_feed_backend.Controllers.Suggestions.{
  Strategy, related, popular, suggest_popular, unless_empty, suggest_keywords,
}
use news_feed_backend.Reading.FeedRows.{All-take}
use news_feed_backend.Reading.Sorting.{IsDescending, All-sorted, sorted-IsDescending}
use news_feed_backend.Reading.Coverage.{
  IsCovered, exists-select, exists-grouped, exists-sorted, take-IsCovered,
}
use news_feed_backend.Reading.Tallies.{
  Differ, grouped-Differ, grouped-counts, keywords-grouped, count_where-fresh, sorted_by-Differ,
}

-- The rows are ranked, few enough, of different keywords that were not picked, and each counts what
-- there is of its keyword among `keywords`; a keyword that has no row though it was not picked is
-- not more frequent than any that has one, and there is no place left for it.
pub record AreRanked (excluded : List String) (limit : ℕ) (keywords : List String)
    (rows : List KeywordRow) : Type 0 where
  pub few : length rows ≤ limit
  pub descending : IsDescending (λ (r : KeywordRow). r.occurrences) rows
  pub different : Pairwise Differ rows
  pub fresh : All (λ (r : KeywordRow). is_fresh excluded r.keyword ≡ true) rows
  pub counted :
      All
        (λ (r : KeywordRow).
          r.occurrences ≡ count_where (λ (x : String). str_eq x r.keyword) keywords)
        rows
  pub complete :
      (k : String)
      → is_fresh excluded k ≡ true
      → exists (λ (x : String). str_eq x k) keywords ≡ true
      → IsCovered limit keywords rows k

take-IsDescending :
    {A : Type 0} (measure : A → ℕ) (n : ℕ) (xs : List A)
    → IsDescending measure xs
    → IsDescending measure (take n xs)
take-IsDescending measure zero xs h = tt
take-IsDescending measure (suc n) [] h = tt
take-IsDescending measure (suc zero) (x ∷ xs) (f, h) = (tt, tt)
take-IsDescending measure (suc (suc n)) (x ∷ []) (f, h) = (tt, tt)
take-IsDescending measure (suc (suc n)) (x ∷ y ∷ ys) (f, h) =
    (f, take-IsDescending measure (suc n) (y ∷ ys) h)

take-Pairwise :
    {A : Type 0} (R : A → A → Type 0) (n : ℕ) (xs : List A) → Pairwise R xs → Pairwise R (take n xs)
take-Pairwise R zero xs h = tt
take-Pairwise R (suc n) [] h = tt
take-Pairwise R (suc n) (x ∷ xs) (d, h) = (All-take (R x) n xs d, take-Pairwise R n xs h)

everything : {A : Type 0} (xs : List A) → All (λ (x : A). Unit {0}) xs
everything [] = tt
everything (x ∷ xs) = (tt, everything xs)

module _ (excluded : List String) (limit : ℕ) (keywords : List String) where
  abbrev left : List String
  left = select (is_fresh excluded) keywords

  grouped-All : All (λ (r : KeywordRow). is_fresh excluded r.keyword ≡ true) (grouped left)
  grouped-All = keywords-grouped _ left (
      All-map _ _ (λ k h. h.1) left
        (All-select (λ (k : String). Unit {0}) (is_fresh excluded) keywords (everything keywords)))

  abbrev Counts : KeywordRow → Type 0
  Counts r = r.occurrences ≡ count_where (λ (x : String). str_eq x r.keyword) keywords

  select-All :
      (rows : List KeywordRow)
      → All (λ (r : KeywordRow). is_fresh excluded r.keyword ≡ true) rows
      → All
          (λ (r : KeywordRow).
            r.occurrences ≡ count_where (λ (x : String). str_eq x r.keyword) left)
          rows
      → All Counts rows
  select-All [] f h = tt
  select-All (r ∷ rows) (p, f) (e, h) =
      (e ∙ count_where-fresh (is_fresh excluded) r.keyword keywords p, select-All rows f h)

  ranked-AreRanked : AreRanked excluded limit keywords (ranked excluded limit keywords)
  unfolding ranked
  ranked-AreRanked =
      let rows = sorted_by ranks_first (grouped left) in
      let descending =
        sorted-IsDescending ranks_first (λ (r : KeywordRow). r.occurrences)
          (λ r s hit. ground (arith, hit)) (λ r s miss. ground (arith, miss)) (grouped left) in
      let all_counted =
        All-sorted ranks_first Counts (grouped left)
          (select-All (grouped left) grouped-All (grouped-counts left)) in
      record {
        few = omega (arith, length-take limit rows);
        descending = take-IsDescending (λ (r : KeywordRow). r.occurrences) limit rows descending;
        different =
            take-Pairwise Differ limit rows
              (sorted_by-Differ ranks_first (grouped left) (grouped-Differ left));
        fresh = All-take _ limit rows (All-sorted ranks_first _ (grouped left) grouped-All);
        counted = All-take Counts limit rows all_counted;
        complete = λ k fresh there. take-IsCovered k keywords limit rows descending all_counted (
            exists-sorted k ranks_first (grouped left)
            ∙ (exists-grouped k left ∙ exists-select (is_fresh excluded) k keywords fresh there));
      }

module _ (lower : Char → Char) (selected : List String) (since limit : ℕ) (db : Db) where
  abbrev picks : List String
  picks = normalize_keywords lower selected

  abbrev related_rows : List String
  related_rows = keyword_rows (is_related picks) db.articles

  abbrev popular_rows : List String
  popular_rows = keyword_rows (is_recent since) db.articles

  -- The suggestions rank what is related to the picks, or, only when nothing is, what is popular.
  abbrev pub IsAnswer : Strategy → List KeywordRow → Type 0
  IsAnswer related rows = (1 ≤ length rows) × AreRanked picks limit related_rows rows
  IsAnswer popular rows =
      AreRanked picks limit related_rows [] × AreRanked picks limit popular_rows rows

  SameDb : Db → Type 0
  SameDb d = d ≡ db

  ok_inj : {A : Type 0} {x y : A} → ok x ≡ ok y → x ≡ y
  ok_inj e = cc

  popular-IsAnswer :
      (ks : List String)
      → encode_keywords lower ks ≡ picks
      → ranked picks limit related_rows ≡ []
      → Leads SameDb
          (λ r d. IsAnswer r.strategy r.suggestions)
          (suggest_popular lower ks since limit)
  unfolding suggest_popular_keywords SameDb
  popular-IsAnswer ks same none_related =
      >>=-Leads _ (λ rows d. AreRanked picks limit popular_rows rows) _
        (read-Leads _ _ _ (λ now d rows here e.
          subst (AreRanked picks limit popular_rows)
            (sym (ap (λ x. ranked picks limit (keyword_rows (is_recent since) x.articles)) here)
              ∙ (ap (λ xs. ranked xs limit (keyword_rows (is_recent since) d.articles)) (sym same)
                  ∙ ok_inj e))
            (ranked-AreRanked picks limit popular_rows)))
        (λ rows. pure-Leads _ _ _ (λ d h. (
          subst (AreRanked picks limit related_rows) none_related
              (ranked-AreRanked picks limit related_rows),
          h,
        )))

  related-Leads :
      Leads SameDb
        (λ rows d. SameDb d × (rows ≡ ranked picks limit related_rows))
        (suggest_related_keywords picks limit)
  unfolding suggest_related_keywords SameDb
  related-Leads = read-Leads _ _ _ (λ now d rows here e. (
    here,
    sym (ok_inj e) ∙ ap (λ x. ranked picks limit (keyword_rows (is_related picks) x.articles)) here,
  ))

  unless_empty-IsAnswer :
      (rows : List KeywordRow)
      → encode_keywords lower selected ≡ picks
      → Leads
          (λ d. SameDb d × (rows ≡ ranked picks limit related_rows))
          (λ r d. IsAnswer r.strategy r.suggestions)
          (unless_empty lower selected since limit rows)
  unless_empty-IsAnswer [] same = record {
    at = λ w h. (popular-IsAnswer selected same (sym h.1)).at w h.0;
  }
  unless_empty-IsAnswer (r ∷ rs) same = pure-Leads _ _ _ (λ d h. (
    omega arith,
    subst (AreRanked picks limit related_rows) (sym h.1)
        (ranked-AreRanked picks limit related_rows),
  ))

-- No article is related to no keyword.
nothing_related : (rows : List Article) → keyword_rows (is_related []) rows ≡ []
unfolding keyword_rows exists
nothing_related [] = refl
nothing_related (a ∷ rest) = ground (arith, nothing_related rest)

nothing_ranked : (limit : ℕ) → ranked [] limit [] ≡ []
unfolding ranked grouped select sorted_by
nothing_ranked zero = refl
nothing_ranked (suc n) = refl

pub suggest_keywords-IsAnswer :
    (lower : Char → Char) (selected : List String) (since limit : ℕ) (db : Db)
    → Leads
        (λ d. d ≡ db)
        (λ r d. IsAnswer lower selected since limit db r.strategy r.suggestions)
        (suggest_keywords lower selected since limit)
unfolding suggest_keywords normalize_keywords encode_keywords SameDb
suggest_keywords-IsAnswer lower [] since limit db =
    popular-IsAnswer lower [] since limit db [] refl
      (ap (λ x. ranked [] limit x) (nothing_related db.articles) ∙ nothing_ranked limit)
suggest_keywords-IsAnswer lower (k ∷ ks) since limit db =
    >>=-Leads _ _ _ (related-Leads lower (k ∷ ks) since limit db)
      (λ rows. unless_empty-IsAnswer lower (k ∷ ks) since limit db rows refl)
