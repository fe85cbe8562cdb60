-- ===== src/Reading/Sorting.antt =====
-- The order of the lists: `sorted` of Queries.Order.
use mathlib.Core.List.{Perm}
use mathlib.Core.List.Perm
use news_feed_backend.Prelude.{
  ℕ, All, ◌≤◌, ◌≡◌, refl, Bool, true, false, List, [], ◌∷◌, length, select, count_where, inl, inr,
  Bool-cases, suc, ap, arith,
}
use news_feed_backend.Queries.Order.{Key, comes_first, insert_sorted, sorted_by, sorted}

module _ {A : Type 0} (measure : A → ℕ) where
  abbrev FollowsAll : A → List A → Type 0
  FollowsAll x [] = Unit
  FollowsAll x (y ∷ ys) = measure y ≤ measure x

  -- No row has a larger measure than the one before it.
  abbrev pub IsDescending : List A → Type 0
  IsDescending [] = Unit
  IsDescending (x ∷ xs) = FollowsAll x xs × IsDescending xs

module _ {A : Type 0} (before : A → A → Bool) where
  insert_sorted-Perm : (x : A) (xs : List A) → Perm (insert_sorted before x xs) (x ∷ xs)
  unfolding insert_sorted
  insert_sorted-Perm x [] = Perm.refl _
  insert_sorted-Perm x (y ∷ ys) = elim (Bool-cases (before y x)) [
    | inl hit ↦ rw hit (Perm.trans (Perm.cons y (insert_sorted-Perm x ys)) (Perm.swap x y ys))
    | inr miss ↦ rw miss (Perm.refl _)
  ]

  pub sorted-Perm : (xs : List A) → Perm (sorted_by before xs) xs
  unfolding sorted_by
  sorted-Perm [] = Perm.refl _
  sorted-Perm (x ∷ xs) =
      Perm.trans (insert_sorted-Perm x (sorted_by before xs)) (Perm.cons x (sorted-Perm xs))

  length-insert_sorted :
      (x : A) (xs : List A) → length (insert_sorted before x xs) ≡ suc (length xs)
  unfolding insert_sorted
  length-insert_sorted x [] = refl
  length-insert_sorted x (y ∷ ys) = elim (Bool-cases (before y x)) [
    | inl hit ↦ rw hit (ap suc (length-insert_sorted x ys))
    | inr miss ↦ rw miss refl
  ]

  pub length-sorted : (xs : List A) → length (sorted_by before xs) ≡ length xs
  unfolding sorted_by
  length-sorted [] = refl
  length-sorted (x ∷ xs) = rw (length-insert_sorted x (sorted_by before xs), length-sorted xs) refl

  module _ (P : A → Type 0) where
    pub All-insert_sorted :
        (x : A) (xs : List A) → P x → All P xs → All P (insert_sorted before x xs)
    unfolding insert_sorted
    All-insert_sorted x [] p h = (p, tt)
    All-insert_sorted x (y ∷ ys) p (q, h) = elim (Bool-cases (before y x)) [
      | inl hit ↦ rw hit (q, All-insert_sorted x ys p h)
      | inr miss ↦ rw miss (p, (q, h))
    ]

    pub All-sorted : (xs : List A) → All P xs → All P (sorted_by before xs)
    unfolding sorted_by
    All-sorted [] h = tt
    All-sorted (x ∷ xs) (p, h) = All-insert_sorted x (sorted_by before xs) p (All-sorted xs h)

  module _ (measure : A → ℕ) (larger : (x y : A) → before y x ≡ true → measure x ≤ measure y)
      (smaller : (x y : A) → before y x ≡ false → measure y ≤ measure x) where
    follows-insert_sorted :
        (x y : A) (ys : List A)
        → measure x ≤ measure y
        → FollowsAll measure y ys
        → FollowsAll measure y (insert_sorted before x ys)
    unfolding insert_sorted
    follows-insert_sorted x y [] less h = less
    follows-insert_sorted x y (z ∷ zs) less h = elim (Bool-cases (before z x)) [
      | inl hit ↦ rw hit h
      | inr miss ↦ rw miss less
    ]

    insert_sorted-IsDescending :
        (x : A) (xs : List A)
        → IsDescending measure xs
        → IsDescending measure (insert_sorted before x xs)
    unfolding insert_sorted
    insert_sorted-IsDescending x [] h = (tt, tt)
    insert_sorted-IsDescending x (y ∷ ys) (f, h) = elim (Bool-cases (before y x)) [
      | inl hit ↦
          rw hit
            (follows-insert_sorted x y ys (larger x y hit) f, insert_sorted-IsDescending x ys h)
      | inr miss ↦ rw miss (smaller x y miss, (f, h))
    ]

    pub sorted-IsDescending : (xs : List A) → IsDescending measure (sorted_by before xs)
    unfolding sorted_by
    sorted-IsDescending [] = tt
    sorted-IsDescending (x ∷ xs) =
        insert_sorted-IsDescending x (sorted_by before xs) (sorted-IsDescending xs)

module _ {A : Type 0} (key : A → Key) where
  -- No row is older than the next.
  abbrev pub IsNewestFirst : List A → Type 0
  IsNewestFirst rows = IsDescending (λ x. (key x).created_at) rows

  pub sorted-IsNewestFirst : (xs : List A) → IsNewestFirst (sorted key xs)
  sorted-IsNewestFirst xs =
      sorted-IsDescending (comes_first key) (λ x. (key x).created_at)
        (λ x y hit. ground (arith, hit)) (λ x y miss. ground (arith, miss)) xs

pub count_where-select :
    {A : Type 0} (test : A → Bool) (xs : List A) → count_where test xs ≡ length (select test xs)
unfolding count_where select
count_where-select test [] = refl
count_where-select test (x ∷ xs) = elim (Bool-cases (test x)) [
  | inl hit ↦ rw hit (ap suc (count_where-select test xs))
  | inr miss ↦ rw miss (count_where-select test xs)
]
