-- ===== src/Reading/Client.antt =====
-- A client that reads a list page by page: the answers of a handler of Lists, put together.
use native.Mathlib.Nat.{mul-le-mul_left}
use news_feed_backend.Prelude.{
  ℕ, zero, suc, ◌+◌, ◌*◌, ◌≤◌, String, ◌≡◌, ◌∙◌, refl, sym, ap, subst, Option, none, some,
  some-injective, List, [], ◌∷◌, ◌++◌, map, length, arith,
}
use news_feed_backend.Prelude.Int.{ℤ, pos}
use news_feed_backend.Store.{World}
use news_feed_backend.Pagination.{
  Response, parse_params, clamp_below, clamp_above, rows_of, build_response, total_pages, max_int32,
  max_page_size,
}
use news_feed_backend.Pagination.Bounds.{IsNormalized, AreEnough, total_pages_lem}
use news_feed_backend.Pagination.Pages.{
  page_number, joined, read_pages, read_all_pages, rows_of_lem, pos_inj,
}
use news_feed_backend.Endpoints.Reply.{Reply, done, failed, Handler}

-- A text for each number of a page, which strconv.Atoi reads back.
abbrev pub Spells : (String → Option ℤ) → (ℕ → String) → Type 0
Spells atoi spell = (k : ℕ) → 1 ≤ k → k ≤ max_int32 → atoi (spell k) ≡ some (pos k)

-- The documents of an answer, and the number of pages that it tells.
abbrev pub docs_of : {A B : Type 0} → (A → B) → Reply (Response A) → Option (List B)
docs_of view (done status r) = some (map view r.docs)
docs_of view (failed status) = none

abbrev pub pages_of : {A : Type 0} → Reply (Response A) → Option ℤ
pages_of (done status r) = some r.pagination.total_pages
pages_of (failed status) = none

-- The pages 1 to `n`, with one request for each, of a database that stays as it is. A client looks
-- at `view` of a document.
unfoldable pub ask_pages :
    {A B : Type 0} → (A → B) → (ℕ → Handler (Response A)) → ℕ → World → Option (List B)
ask_pages view ask zero w = some []
ask_pages view ask (suc n) w = joined (ask_pages view ask n w) (docs_of view (ask (suc n) w).0)

pub map_id : {A : Type 0} (xs : List A) → map (λ x. x) xs ≡ xs
map_id [] = refl
map_id (x ∷ xs) = ap (λ r. x ∷ r) (map_id xs)

map-append : {A B : Type 0} (f : A → B) (xs ys : List A) → map f (xs ++ ys) ≡ map f xs ++ map f ys
map-append f [] ys = refl
map-append f (x ∷ xs) ys = ap (λ r. f x ∷ r) (map-append f xs ys)

clamp_below_same : (low n : ℕ) → low ≤ n → clamp_below low (pos n) ≡ n
unfolding clamp_below
clamp_below_same low n h = ground arith

clamp_above_same : (high n : ℕ) → n ≤ high → clamp_above high n ≡ n
unfolding clamp_above
clamp_above_same high n h = ground arith

pub parse_params_spelled :
    (atoi : String → Option ℤ) (spell : ℕ → String)
    → Spells atoi spell
    → (size k : ℕ) → 1 ≤ size
    → size ≤ max_page_size
    → 1 ≤ k
    → k ≤ max_int32
    → parse_params atoi (spell k) (spell size) ≡ page_number size k
unfolding parse_params
parse_params_spelled atoi spell spells size k low high one near =
    rw
      (
        spells k one near,
        spells size low (omega (arith, high)),
        clamp_below_same 1 k one,
        clamp_below_same 1 size low,
        clamp_above_same 100 size high,
      )
      refl

module _ {A B C : Type 0} (view : B → C) (shown : A → C) (rows : List A) (size : ℕ)
    (ask : ℕ → Handler (Response B)) (w : World) where
  -- The answer to the request of a page has the documents of that page.
  abbrev pub Answers : Type 0
  Answers =
      (k : ℕ) (page : List A)
      → 1 ≤ k
      → k ≤ max_int32
      → rows_of (page_number size k) rows ≡ some page
      → (docs : List B) × (((ask k w).0
            ≡ done 200 (build_response docs (length rows) (page_number size k)))
          × (map view docs ≡ map shown page))

  joined_lem :
      (xs ys : Option (List A)) (zs : List A)
      → joined xs ys ≡ some zs
      → (a : List A) × ((b : List A) × ((xs ≡ some a) × ((ys ≡ some b) × (a ++ b ≡ zs))))
  joined_lem none ys zs e = absurd (ground arith)
  joined_lem (some a) none zs e = absurd (ground arith)
  joined_lem (some a) (some b) zs e = (a, (b, (refl, (refl, some-injective _ _ e))))

  ask_pages_lem :
      Answers
      → (n : ℕ) (xs : List A) → n ≤ max_int32
      → read_pages size n rows ≡ some xs
      → ask_pages view ask n w ≡ some (map shown xs)
  unfolding ask_pages read_pages build_response
  ask_pages_lem answers zero xs near e = ap (λ ys. some (map shown ys)) (some-injective [] xs e)
  ask_pages_lem answers (suc n) xs near e =
      let parts = joined_lem (read_pages size n rows) _ xs e in
      let docs = answers (suc n) parts.1.0 (omega arith) near parts.1.1.1.0 in
      rw
        (
          ask_pages_lem answers n parts.0 (omega (arith, near)) parts.1.1.0,
          docs.1.0,
          docs.1.1,
          sym parts.1.1.1.1,
          map-append shown parts.0 parts.1.0,
        )
        refl

  few_pages : (n : ℕ) → 1 ≤ size → n * size ≤ max_int32 → n ≤ max_int32
  few_pages n low h = let more : n * 1 ≤ n * size = mul-le-mul_left n low in omega (arith, more, h)

  -- A client that asks for as many pages as the answer to the first request tells, gets the
  -- documents of all rows in their order.
  pub ask_all_pages :
      Answers
      → (n : ℕ) → 1 ≤ size
      → size ≤ max_page_size
      → length rows + size ≤ max_int32
      → pages_of (ask 1 w).0 ≡ some (pos n)
      → ask_pages view ask n w ≡ some (map shown rows)
  unfolding build_response
  ask_all_pages answers n low high near told =
      let first : IsNormalized (page_number size 1) = record {
        page = omega arith;
        size = low;
        size_max = high;
      } in
      let page = rows_of_lem (page_number size 1) rows first (omega arith) in
      let docs = answers 1 _ (omega arith) (omega arith) page in
      let total : total_pages (length rows) size ≡ pos n =
        some-injective _ _ (sym (ap pages_of docs.1.0) ∙ told) in
      let pages = total_pages_lem (length rows) (page_number size 1) first (omega (arith, near)) in
      let same : pages.0 ≡ n = pos_inj (sym pages.1.0 ∙ total) in
      let enough : AreEnough (length rows) size n =
        subst (AreEnough (length rows) size) same pages.1.1 in
      ask_pages_lem answers n rows (few_pages n low (omega (arith, enough.1, near)))
        (read_all_pages size n rows low high near total)
