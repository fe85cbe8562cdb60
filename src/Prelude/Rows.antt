-- ===== src/Prelude/Rows.antt =====
-- Tables as lists of rows: the shapes of SELECT, UPDATE and EXISTS that the queries share.
use Prim.Native.Nat.{ℕ, suc, ◌≤◌}
use mathlib.Core.Path.{◌≡◌, refl, subst}
use mathlib.Core.Logic.{inl, inr}
use mathlib.Core.Bool.{Bool, true, false, ◌||◌}
use mathlib.Core.Option.{Option, none, some, some-injective}
use mathlib.Core.List.{List, [], ◌∷◌, ◌++◌}
use native.Mathlib.Omega.{arith}
use news_feed_backend.Prelude.Tests.{if◌then◌else◌, Bool-cases}

module _ {ℓ κ} {A : Type ℓ} (P : A → Type κ) where
  abbrev pub All : List A → Type κ
  All [] = Unit
  All (x ∷ xs) = P x × All xs

  pub All-append : (xs ys : List A) → All xs → All ys → All (xs ++ ys)
  All-append [] ys hx hy = hy
  All-append (x ∷ xs) ys (p, hx) hy = (p, All-append xs ys hx hy)

module _ {ℓ} {A : Type ℓ} where
  -- SELECT ... WHERE test LIMIT 1
  unfoldable pub find_first : (A → Bool) → List A → Option A
  find_first test [] = none
  find_first test (x ∷ xs) = if test x then some x else find_first test xs

  -- SELECT ... WHERE test
  unfoldable pub select : (A → Bool) → List A → List A
  select test [] = []
  select test (x ∷ xs) = if test x then x ∷ select test xs else select test xs

  -- SELECT COUNT(*) ... WHERE test
  unfoldable pub count_where : (A → Bool) → List A → ℕ
  count_where test [] = 0
  count_where test (x ∷ xs) = if test x then suc (count_where test xs) else count_where test xs

  -- WHERE EXISTS (SELECT ... WHERE test)
  unfoldable pub exists : (A → Bool) → List A → Bool
  exists test [] = false
  exists test (x ∷ xs) = test x || exists test xs

  -- UPDATE ... SET change WHERE test
  unfoldable pub update_where : (A → Bool) → (A → A) → List A → List A
  update_where test change [] = []
  update_where test change (x ∷ xs) = (if test x then change x else x) ∷ update_where test change xs

module _ {ℓ κ} {A : Type ℓ} (P : A → Type κ) (test : A → Bool) where
  -- What every row has, the selected rows have, together with the test.
  pub All-select : (xs : List A) → All P xs → All (λ x. P x × (test x ≡ true)) (select test xs)
  unfolding select
  All-select [] h = tt
  All-select (x ∷ xs) (p, h) = elim (Bool-cases (test x)) [
    | inl hit ↦ rw hit ((p, hit), All-select xs h)
    | inr miss ↦ rw miss (All-select xs h)
  ]

  pub All-find_first :
      (xs : List A) (x : A) → All P xs → find_first test xs ≡ some x → P x × (test x ≡ true)
  unfolding find_first
  All-find_first [] x h e = absurd (ground arith)
  All-find_first (y ∷ xs) x (p, h) e = elim (Bool-cases (test y)) [
    | inl hit ↦ subst (λ z. P z × (test z ≡ true)) (some-injective y x (rw hit at e)) (p, hit)
    | inr miss ↦ All-find_first xs x h (rw miss at e)
  ]

module _ {ℓ κ} {A : Type ℓ} (P Q : A → Type κ) (test : A → Bool) (change : A → A) where
  -- An update leads from one property to another, if it does so on the rows that it changes and
  -- on those that it does not.
  pub All-update_where :
      ((x : A) → P x → test x ≡ true → Q (change x))
      → ((x : A) → P x → test x ≡ false → Q x)
      → (xs : List A) → All P xs
      → All Q (update_where test change xs)
  unfolding update_where
  All-update_where changed kept [] h = tt
  All-update_where changed kept (x ∷ xs) (p, h) = elim (Bool-cases (test x)) [
    | inl hit ↦ rw hit (changed x p hit, All-update_where changed kept xs h)
    | inr miss ↦ rw miss (kept x p miss, All-update_where changed kept xs h)
  ]

module _ {ℓ κ μ} {A : Type ℓ} (P : A → Type κ) (Q : A → Type μ) where
  pub All-map : ((x : A) → P x → Q x) → (xs : List A) → All P xs → All Q xs
  All-map f [] h = tt
  All-map f (x ∷ xs) (p, h) = (f x p, All-map f xs h)

module _ {ℓ} {A : Type ℓ} (test hit : A → Bool) (change : A → A) where
  -- An update that does not change a test of the rows that it changes, does not change what the
  -- test finds and counts.
  pub exists-update_where :
      ((x : A) → hit x ≡ true → test (change x) ≡ test x)
      → (xs : List A) → exists test (update_where hit change xs) ≡ exists test xs
  unfolding exists update_where
  exists-update_where same [] = refl
  exists-update_where same (x ∷ xs) = elim (Bool-cases (hit x)) [
    | inl h ↦ rw (h, same x h, exists-update_where same xs)
    | inr h ↦ rw (h, exists-update_where same xs)
  ]

  pub count_where-update_where :
      ((x : A) → hit x ≡ true → test (change x) ≡ test x)
      → (xs : List A) → count_where test (update_where hit change xs) ≡ count_where test xs
  unfolding count_where update_where
  count_where-update_where same [] = refl
  count_where-update_where same (x ∷ xs) = elim (Bool-cases (hit x)) [
    | inl h ↦ rw (h, same x h, count_where-update_where same xs)
    | inr h ↦ rw (h, count_where-update_where same xs)
  ]

  -- An update whose rows fail the test lowers the count at most.
  pub count_where-update_where_le :
      ((x : A) → hit x ≡ true → test (change x) ≡ true → test x ≡ true)
      → (xs : List A) → count_where test (update_where hit change xs) ≤ count_where test xs
  unfolding count_where update_where
  count_where-update_where_le less [] = omega arith
  count_where-update_where_le less (x ∷ xs) =
      ground (arith, less x, count_where-update_where_le less xs)

module _ {ℓ} {A : Type ℓ} (test : A → Bool) where
  pub exists_of_find_first :
      (xs : List A) (x : A) → find_first test xs ≡ some x → exists test xs ≡ true
  unfolding find_first exists
  exists_of_find_first [] x e = absurd (ground arith)
  exists_of_find_first (y ∷ xs) x e = ground (arith, exists_of_find_first xs x)

  pub exists-cons : (x : A) (xs : List A) → exists test xs ≡ true → exists test (x ∷ xs) ≡ true
  unfolding exists
  exists-cons x xs h = ground arith

  -- The rows that an update selects are no longer selected, if the change makes the test fail.
  pub exists-update_where_all :
      (change : A → A)
      → ((x : A) → test (change x) ≡ false)
      → (xs : List A) → exists test (update_where test change xs) ≡ false
  unfolding exists update_where
  exists-update_where_all change gone [] = refl
  exists-update_where_all change gone (x ∷ xs) = elim (Bool-cases (test x)) [
    | inl hit ↦ rw (hit, gone x, exists-update_where_all change gone xs)
    | inr miss ↦ rw (miss, miss, exists-update_where_all change gone xs)
  ]

  pub All-exists : (xs : List A) → exists test xs ≡ false → All (λ x. test x ≡ false) xs
  unfolding exists
  All-exists [] e = tt
  All-exists (x ∷ xs) e = (ground arith, All-exists xs (ground arith))

  pub count_where-none : (xs : List A) → exists test xs ≡ false → count_where test xs ≡ 0
  unfolding exists count_where
  count_where-none [] e = refl
  count_where-none (x ∷ xs) e = ground (arith, count_where-none xs)

  pub exists-here : (x : A) (xs : List A) → test x ≡ true → exists test (x ∷ xs) ≡ true
  unfolding exists
  exists-here x xs h = rw h refl

module _ {ℓ} {A : Type ℓ} (test hit : A → Bool) (change : A → A) where
  -- After an update that makes the test fail wherever it held, nothing is found.
  pub find_first-update_where-none :
      ((x : A) → hit x ≡ true → test (change x) ≡ false)
      → ((x : A) → hit x ≡ false → test x ≡ false)
      → (xs : List A) → find_first test (update_where hit change xs) ≡ none
  unfolding find_first update_where
  find_first-update_where-none gone other [] = refl
  find_first-update_where-none gone other (x ∷ xs) = elim (Bool-cases (hit x)) [
    | inl h ↦ rw (h, gone x h, find_first-update_where-none gone other xs)
    | inr h ↦ rw (h, other x h, find_first-update_where-none gone other xs)
  ]
