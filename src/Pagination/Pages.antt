-- ===== src/Pagination/Pages.antt =====
-- The pages of a list of rows, one after another.
use Prim.Native.Nat.{ℕ, min}
use news_feed_backend.Prelude.{
  zero, suc, ◌+◌, ◌-◌, ◌*◌, ◌≤◌, ◌≡◌, ◌∙◌, refl, ap, sym, subst, Option, none, some, List, [], ◌∷◌,
  ◌++◌, length, take, drop, take_all, arith,
}
use news_feed_backend.Prelude.Int.{pos}
use news_feed_backend.Pagination.{Params, rows_of, max_int32, max_page_size, total_pages}
use news_feed_backend.Pagination.Bounds.{
  IsNormalized, limit_lem, offset_lem, total_pages_lem, AreEnough,
}

-- The page of the size with the number, counted from 1.
abbrev pub page_number : ℕ → ℕ → Params
page_number size k = record { page = k; page_size = size }

abbrev pub joined : {A : Type 0} → Option (List A) → Option (List A) → Option (List A)
joined (some xs) (some ys) = some (xs ++ ys)
joined none ys = none
joined (some xs) none = none

-- The rows of the pages 1 to `n`, one request for each.
unfoldable pub read_pages : {A : Type 0} → ℕ → ℕ → List A → Option (List A)
read_pages size zero rows = some []
read_pages size (suc n) rows =
    joined (read_pages size n rows) (rows_of (page_number size (suc n)) rows)

pub pos_inj : {m n : ℕ} → pos m ≡ pos n → m ≡ n
pos_inj e = cc

module _ {A : Type 0} where
  take-nil : (n : ℕ) → take {A = A} n [] ≡ []
  take-nil zero = refl
  take-nil (suc n) = refl

  take-add : (m n : ℕ) (xs : List A) → take (m + n) xs ≡ take m xs ++ take n (drop m xs)
  take-add zero n xs = let e : 0 + n ≡ n = omega arith in rw e refl
  take-add (suc m) n [] = let e : suc m + n ≡ suc (m + n) = omega arith in rw (e, take-nil n) refl
  take-add (suc m) n (x ∷ xs) =
      let e : suc m + n ≡ suc (m + n) = omega arith in rw e (ap (λ r. x ∷ r) (take-add m n xs))

  -- A page of a normalized request that is not past MaxInt32 rows.
  pub rows_of_lem :
      (p : Params) (rows : List A)
      → IsNormalized p
      → (p.page - 1) * p.page_size ≤ max_int32
      → rows_of p rows ≡ some (take p.page_size (drop ((p.page - 1) * p.page_size) rows))
  unfolding rows_of
  rows_of_lem p rows n near =
      let e : min ((p.page - 1) * p.page_size) max_int32 ≡ (p.page - 1) * p.page_size =
        omega (arith, near) in
      rw (limit_lem p n, offset_lem p n, e) refl

  read_pages_lem :
      (size n : ℕ) (rows : List A)
      → 1 ≤ size
      → size ≤ max_page_size
      → n * size ≤ max_int32
      → read_pages size n rows ≡ some (take (n * size) rows)
  unfolding read_pages
  read_pages_lem size zero rows low high near = let e : 0 * size ≡ 0 = omega arith in rw e refl
  read_pages_lem size (suc n) rows low high near =
      let grown : suc n * size ≡ n * size + size = ground arith in
      let p = page_number size (suc n) in
      let before : suc n - 1 ≡ n = omega arith in
      let page : rows_of p rows ≡ some (take size (drop (n * size) rows)) = rw before at (
        rows_of_lem p rows (record { page = omega arith; size = low; size_max = high })
          (rw before (omega (arith, grown, near)))) in
      rw
        (
          grown,
          read_pages_lem size n rows low high (omega (arith, grown, near)),
          page,
          take-add (n * size) size rows,
        )
        refl

  -- A client that asks for the pages 1 to total_pages receives every row once and in order.
  pub read_all_pages :
      (size n : ℕ) (rows : List A)
      → 1 ≤ size
      → size ≤ max_page_size
      → length rows + size ≤ max_int32
      → total_pages (length rows) size ≡ pos n
      → read_pages size n rows ≡ some rows
  read_all_pages size n rows low high near e =
      let pages =
        total_pages_lem (length rows) (page_number size 1)
          (record { page = omega arith; size = low; size_max = high }) (omega arith) in
      let same : pages.0 ≡ n = pos_inj (sym pages.1.0 ∙ e) in
      let enough : AreEnough (length rows) size n =
        subst (AreEnough (length rows) size) same pages.1.1 in
      read_pages_lem size n rows low high (omega (arith, enough.1))
      ∙ ap some (take_all (n * size) rows enough.0)
