-- ===== src/Reading/Tallies.antt =====
-- GROUP BY with COUNT(*), as the keyword suggestions of sqlc/articles.sql.go use it.
use news_feed_backend.Prelude.{
  ℕ, suc, String, str_eq, str_eq_iff, str_eq_left, str_eq_sym, ◌≡◌, ◌∙◌, refl, sym, ap, subst, Bool,
  true, false, List, [], ◌∷◌, select, count_where, All, All-map, Pairwise, Bool-cases, inl, inr,
  if◌then◌else◌, arith,
}
use news_feed_backend.Queries.Order.{insert_sorted, sorted_by}
use news_feed_backend.Queries.Suggestions.{KeywordRow, count_in, grouped}
use news_feed_backend.Reading.Sorting.{All-sorted, All-insert_sorted}

-- What the rows count for a keyword.
unfoldable tally_of : String → List KeywordRow → ℕ
tally_of k [] = 0
tally_of k (r ∷ rest) = if str_eq r.keyword k then r.occurrences else tally_of k rest

abbrev is_keyword : String → String → Bool
is_keyword k x = str_eq x k

-- The rows are of different keywords.
abbrev pub Differ : KeywordRow → KeywordRow → Type 0
Differ r s = str_eq r.keyword s.keyword ≡ false

Differ-sym : (r s : KeywordRow) → Differ r s → Differ s r
Differ-sym r s h = str_eq_sym s.keyword r.keyword ∙ h

tally_of-count_in :
    (k j : String) (rows : List KeywordRow)
    → tally_of k (count_in j rows) ≡ (if str_eq j k then suc (tally_of k rows) else tally_of k rows)
unfolding tally_of count_in
tally_of-count_in k j [] = ground arith
tally_of-count_in k j (r ∷ rest) = elim (Bool-cases (str_eq r.keyword j)) [
  | inl hit ↦ let same = str_eq_left r.keyword j k hit in rw (hit, same) (ground arith)
  | inr miss ↦ elim (Bool-cases (str_eq r.keyword k)) [
    | inl mine ↦
        let other : str_eq j k ≡ false =
          str_eq_sym j k ∙ (sym (str_eq_left r.keyword k j mine) ∙ miss) in
        rw (miss, mine, other) (ground (arith, mine))
    | inr not_mine ↦ rw (miss, not_mine) (ground (arith, not_mine, tally_of-count_in k j rest))
  ]
]

tally_of-grouped :
    (k : String) (ks : List String) → tally_of k (grouped ks) ≡ count_where (is_keyword k) ks
unfolding grouped count_where tally_of
tally_of-grouped k [] = refl
tally_of-grouped k (j ∷ js) =
    tally_of-count_in k j (grouped js)
    ∙ ap (λ n. if str_eq j k then suc n else n) (tally_of-grouped k js)

module _ (P : String → Type 0) where
  keywords-count_in :
      (k : String) (rows : List KeywordRow)
      → P k
      → All (λ (r : KeywordRow). P r.keyword) rows
      → All (λ (r : KeywordRow). P r.keyword) (count_in k rows)
  unfolding count_in
  keywords-count_in k [] p h = (p, tt)
  keywords-count_in k (r ∷ rest) p (q, h) = elim (Bool-cases (str_eq r.keyword k)) [
    | inl hit ↦ rw hit (q, h)
    | inr miss ↦ rw miss (q, keywords-count_in k rest p h)
  ]

  pub keywords-grouped :
      (ks : List String) → All P ks → All (λ (r : KeywordRow). P r.keyword) (grouped ks)
  unfolding grouped
  keywords-grouped [] h = tt
  keywords-grouped (k ∷ ks) (p, h) = keywords-count_in k (grouped ks) p (keywords-grouped ks h)

count_in-Differ :
    (k : String) (rows : List KeywordRow) → Pairwise Differ rows → Pairwise Differ (count_in k rows)
unfolding count_in
count_in-Differ k [] h = (tt, tt)
count_in-Differ k (r ∷ rest) (d, h) = elim (Bool-cases (str_eq r.keyword k)) [
  | inl hit ↦ rw hit (d, h)
  | inr miss ↦
      rw miss (
        keywords-count_in (λ x. str_eq r.keyword x ≡ false) k rest miss d,
        count_in-Differ k rest h,
      )
]

pub grouped-Differ : (ks : List String) → Pairwise Differ (grouped ks)
unfolding grouped
grouped-Differ [] = tt
grouped-Differ (k ∷ ks) = count_in-Differ k (grouped ks) (grouped-Differ ks)

tallied :
    (rows : List KeywordRow)
    → Pairwise Differ rows
    → All (λ (r : KeywordRow). tally_of r.keyword rows ≡ r.occurrences) rows
unfolding tally_of
tallied [] h = tt
tallied (r ∷ rest) (d, h) =
    let self : str_eq r.keyword r.keyword ≡ true = (str_eq_iff r.keyword r.keyword).1 refl in
    (rw self refl, All-both rest d (tallied rest h))
  where
    All-both :
        (rows : List KeywordRow)
        → All (Differ r) rows
        → All (λ (s : KeywordRow). tally_of s.keyword rest ≡ s.occurrences) rows
        → All (λ (s : KeywordRow). tally_of s.keyword (r ∷ rest) ≡ s.occurrences) rows
    All-both [] d h = tt
    All-both (s ∷ rows) (p, d) (e, h) = (rw p e, All-both rows d h)

-- Each row counts what there is of its keyword.
pub grouped-counts :
    (ks : List String)
    → All (λ (r : KeywordRow). r.occurrences ≡ count_where (is_keyword r.keyword) ks) (grouped ks)
grouped-counts ks =
    All-map _ _ (λ r e. sym e ∙ tally_of-grouped r.keyword ks) (grouped ks)
      (tallied (grouped ks) (grouped-Differ ks))

-- The rows that a filter leaves count as before.
pub count_where-fresh :
    (fresh : String → Bool) (k : String) (ks : List String)
    → fresh k ≡ true
    → count_where (is_keyword k) (select fresh ks) ≡ count_where (is_keyword k) ks
unfolding select count_where
count_where-fresh fresh k [] h = refl
count_where-fresh fresh k (j ∷ js) h = elim (Bool-cases (str_eq j k)) [
  | inl hit ↦
      let also : fresh j ≡ true = subst (λ x. fresh x ≡ true) (sym ((str_eq_iff j k).0 hit)) h in
      rw (hit, also, hit) (ap suc (count_where-fresh fresh k js h))
  | inr miss ↦ elim (Bool-cases (fresh j)) [
    | inl kept ↦ rw (miss, kept, miss) (count_where-fresh fresh k js h)
    | inr dropped ↦ rw (miss, dropped) (count_where-fresh fresh k js h)
  ]
]

module _ (before : KeywordRow → KeywordRow → Bool) where
  insert_sorted-Differ :
      (r : KeywordRow) (rows : List KeywordRow)
      → All (Differ r) rows
      → Pairwise Differ rows
      → Pairwise Differ (insert_sorted before r rows)
  unfolding insert_sorted
  insert_sorted-Differ r [] d h = (tt, tt)
  insert_sorted-Differ r (s ∷ rows) (p, d) (q, h) = elim (Bool-cases (before s r)) [
    | inl hit ↦ rw hit (
      All-insert_sorted before (Differ s) r rows (Differ-sym r s p) q,
      insert_sorted-Differ r rows d h,
    )
    | inr miss ↦ rw miss ((p, d), (q, h))
  ]

  pub sorted_by-Differ :
      (rows : List KeywordRow) → Pairwise Differ rows → Pairwise Differ (sorted_by before rows)
  unfolding sorted_by
  sorted_by-Differ [] h = tt
  sorted_by-Differ (r ∷ rows) (d, h) =
      insert_sorted-Differ r (sorted_by before rows) (All-sorted before (Differ r) rows d)
        (sorted_by-Differ rows h)
