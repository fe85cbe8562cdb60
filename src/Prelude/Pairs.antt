-- ===== src/Prelude/Pairs.antt =====
-- Relations between any two rows of a table.
use mathlib.Core.Path.{◌≡◌}
use mathlib.Core.Logic.{inl, inr}
use mathlib.Core.Bool.{Bool, true, false}
use mathlib.Core.List.{List, [], ◌∷◌}
use news_feed_backend.Prelude.Tests.{Bool-cases}
use news_feed_backend.Prelude.Rows.{All, update_where}

module _ {ℓ κ} {A : Type ℓ} (R : A → A → Type κ) where
  abbrev pub Pairwise : List A → Type κ
  Pairwise [] = Unit
  Pairwise (x ∷ xs) = All (R x) xs × Pairwise xs

module _ {ℓ κ μ} {A : Type ℓ} (P : A → Type μ) (R : A → A → Type κ) (test : A → Bool)
    (change : A → A)
    -- The relation survives the change of one row or of both.
    (both : (x y : A) → P x → P y → R x y → test x ≡ true → test y ≡ true → R (change x) (change y))
    (left : (x y : A) → P x → P y → R x y → test x ≡ true → test y ≡ false → R (change x) y)
    (right : (x y : A) → P x → P y → R x y → test x ≡ false → test y ≡ true → R x (change y)) where
  with_changed :
      (x : A) (xs : List A)
      → P x
      → test x ≡ true
      → All P xs
      → All (R x) xs
      → All (R (change x)) (update_where test change xs)
  unfolding update_where
  with_changed x [] p e ps rs = tt
  with_changed x (y ∷ xs) p e (q, ps) (r, rs) = elim (Bool-cases (test y)) [
    | inl hit ↦ rw hit (both x y p q r e hit, with_changed x xs p e ps rs)
    | inr miss ↦ rw miss (left x y p q r e miss, with_changed x xs p e ps rs)
  ]

  with_kept :
      (x : A) (xs : List A)
      → P x
      → test x ≡ false
      → All P xs
      → All (R x) xs
      → All (R x) (update_where test change xs)
  unfolding update_where
  with_kept x [] p e ps rs = tt
  with_kept x (y ∷ xs) p e (q, ps) (r, rs) = elim (Bool-cases (test y)) [
    | inl hit ↦ rw hit (right x y p q r e hit, with_kept x xs p e ps rs)
    | inr miss ↦ rw miss (r, with_kept x xs p e ps rs)
  ]

  pub Pairwise-update_where :
      (xs : List A) → All P xs → Pairwise R xs → Pairwise R (update_where test change xs)
  unfolding update_where
  Pairwise-update_where [] ps rs = tt
  Pairwise-update_where (x ∷ xs) (p, ps) (r, rs) = elim (Bool-cases (test x)) [
    | inl hit ↦ rw hit (with_changed x xs p hit ps r, Pairwise-update_where xs ps rs)
    | inr miss ↦ rw miss (with_kept x xs p miss ps r, Pairwise-update_where xs ps rs)
  ]
