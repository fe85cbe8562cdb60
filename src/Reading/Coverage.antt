-- ===== src/Reading/Coverage.antt =====
-- The keywords that a ranking of sqlc/articles.sql.go leaves out.
use news_feed_backend.Prelude.{
  ℕ, zero, suc, ◌≤◌, String, str_eq, str_eq_iff, Bool, Bool-cases, inl, inr, ◌⊎◌, ◌||◌, ◌≡◌, ◌∙◌,
  refl, sym, ap, subst, true, exists, List, [], ◌∷◌, select, count_where, take, length, All, arith,
}
use news_feed_backend.Queries.Order.{insert_sorted, sorted_by}
use news_feed_backend.Queries.Suggestions.{KeywordRow, count_in, grouped}
use news_feed_backend.Reading.Sorting.{IsDescending}

abbrev pub count_of : List String → String → ℕ
count_of keywords k = count_where (λ (x : String). str_eq x k) keywords

-- There is a row of the keyword, or the rows are as many as they may be, and count no less.
abbrev pub IsCovered : ℕ → List String → List KeywordRow → String → Type 0
IsCovered limit keywords rows k =
    (exists (λ (r : KeywordRow). str_eq r.keyword k) rows ≡ true)
    ⊎ ((length rows ≡ limit) × All (λ (r : KeywordRow). count_of keywords k ≤ r.occurrences) rows)

pub exists-select :
    (fresh : String → Bool) (k : String) (ks : List String)
    → fresh k ≡ true
    → exists (λ (x : String). str_eq x k) ks ≡ true
    → exists (λ (x : String). str_eq x k) (select fresh ks) ≡ true
unfolding exists select
exists-select fresh k [] f h = h
exists-select fresh k (j ∷ js) f h = elim (Bool-cases (str_eq j k)) [
  | inl hit ↦
      let also : fresh j ≡ true = subst (λ x. fresh x ≡ true) (sym ((str_eq_iff j k).0 hit)) f in
      rw (also, hit) refl
  | inr miss ↦
      let below = exists-select fresh k js f (rw miss at h) in
      elim (Bool-cases (fresh j)) [
        | inl kept ↦ rw (kept, miss) below
        | inr dropped ↦ rw dropped below
      ]
]

module _ (k : String) where
  abbrev pub is_row : KeywordRow → Bool
  is_row r = str_eq r.keyword k

  exists-count_in :
      (j : String) (rows : List KeywordRow)
      → exists is_row (count_in j rows) ≡ (str_eq j k || exists is_row rows)
  unfolding exists count_in
  exists-count_in j [] = refl
  exists-count_in j (r ∷ rest) = elim (Bool-cases (str_eq r.keyword j)) [
    | inl hit ↦ rw (hit, (str_eq_iff r.keyword j).0 hit) (ground arith)
    | inr miss ↦ rw (miss, exists-count_in j rest) (ground arith)
  ]

  pub exists-grouped :
      (ks : List String) → exists is_row (grouped ks) ≡ exists (λ (x : String). str_eq x k) ks
  unfolding exists grouped
  exists-grouped [] = refl
  exists-grouped (j ∷ js) =
      exists-count_in j (grouped js) ∙ ap (λ b. str_eq j k || b) (exists-grouped js)

  exists-insert_sorted :
      (before : KeywordRow → KeywordRow → Bool) (r : KeywordRow) (rows : List KeywordRow)
      → exists is_row (insert_sorted before r rows) ≡ (is_row r || exists is_row rows)
  unfolding exists insert_sorted
  exists-insert_sorted before r [] = refl
  exists-insert_sorted before r (s ∷ rows) = elim (Bool-cases (before s r)) [
    | inl hit ↦ rw (hit, exists-insert_sorted before r rows) (ground arith)
    | inr miss ↦ rw miss refl
  ]

  pub exists-sorted :
      (before : KeywordRow → KeywordRow → Bool) (rows : List KeywordRow)
      → exists is_row (sorted_by before rows) ≡ exists is_row rows
  unfolding exists sorted_by
  exists-sorted before [] = refl
  exists-sorted before (r ∷ rows) =
      exists-insert_sorted before r (sorted_by before rows)
      ∙ ap (λ b. is_row r || b) (exists-sorted before rows)

  module _ (keywords : List String) where
    abbrev pub IsCounted : KeywordRow → Type 0
    IsCounted r = r.occurrences ≡ count_of keywords r.keyword

    -- A row of the keyword is not above the rows before it.
    below_first :
        (x : KeywordRow) (rows : List KeywordRow)
        → IsDescending (λ (r : KeywordRow). r.occurrences) (x ∷ rows)
        → All IsCounted rows
        → exists is_row rows ≡ true
        → count_of keywords k ≤ x.occurrences
    unfolding exists
    below_first x [] d c h = absurd (ground arith)
    below_first x (y ∷ rows) (less, d) (e, c) h = elim (Bool-cases (str_eq y.keyword k)) [
      | inl hit ↦
          let same : y.occurrences ≡ count_of keywords k =
            e ∙ ap (count_of keywords) ((str_eq_iff y.keyword k).0 hit) in
          omega (arith, less, same)
      | inr miss ↦ let rest = below_first y rows d c (rw miss at h) in omega (arith, less, rest)
    ]

    pub take-IsCovered :
        (n : ℕ) (rows : List KeywordRow)
        → IsDescending (λ (r : KeywordRow). r.occurrences) rows
        → All IsCounted rows
        → exists is_row rows ≡ true
        → IsCovered n keywords (take n rows) k
    unfolding exists
    take-IsCovered zero rows d c h = inr (refl, tt)
    take-IsCovered (suc n) [] d c h = absurd (ground arith)
    take-IsCovered (suc n) (x ∷ rows) d c h = elim (Bool-cases (str_eq x.keyword k)) [
      | inl hit ↦ inl (rw hit refl)
      | inr miss ↦
          let there : exists is_row rows ≡ true = rw miss at h in
          elim (take-IsCovered n rows d.1 c.1 there) [
            | inl found ↦ inl (rw (miss, found) refl)
            | inr full ↦ inr (ap suc full.0, (below_first x rows d c.1 there, full.1))
          ]
    ]
