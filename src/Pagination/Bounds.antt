-- ===== src/Pagination/Bounds.antt =====
-- The bounds of the numbers of a page.
use Prim.Native.Nat.{ℕ, min}
use native.Mathlib.Nat.{
  le-div_iff_mul-le, div-lt_iff_lt-mul, mod-eq_of_lt, div-mul-le_self, lt-div-mul-add,
  mul-le-mul_right,
}
use news_feed_backend.Prelude.{
  ◌+◌, ◌-◌, ◌*◌, ◌/◌, ◌%◌, ◌≤◌, ◌<◌, String, ◌≡◌, refl, Option, List, ltb, ltb→lt, lt→ltb, arith,
  sym, Bool-cases, inl, inr, ap, ◌∙◌,
}
use news_feed_backend.Prelude.Int.{ℤ, pos, negsuc}
use news_feed_backend.Pagination.{
  Params, parse_params, clamp_below, clamp_above, or_default, limit, offset, signed, total_pages,
  build_response, max_int32, max_page_size,
}

-- What ParseParams makes.
pub record IsNormalized (p : Params) : Type 0 where
  pub page : 1 ≤ p.page
  pub size : 1 ≤ p.page_size
  pub size_max : p.page_size ≤ max_page_size

pub clamp_below-le : (low : ℕ) (n : ℤ) → low ≤ clamp_below low n
unfolding clamp_below
clamp_below-le low (pos n) = ground arith
clamp_below-le low (negsuc n) = omega arith

-- Whatever the two texts of the query are, the page is at least 1 and the size between 1 and 100.
pub parse_params-IsNormalized :
    (atoi : String → Option ℤ) (page_raw size_raw : String)
    → IsNormalized (parse_params atoi page_raw size_raw)
unfolding parse_params clamp_above
parse_params-IsNormalized atoi page_raw size_raw = record {
  page = clamp_below-le 1 (or_default 1 (atoi page_raw));
  size = ground (arith, clamp_below-le 1 (or_default 20 (atoi size_raw)));
  size_max = ground arith;
}

signed_small : (half n : ℕ) → n < half → signed half n ≡ pos n
unfolding signed
signed_small half n h =
    let e : n % (2 * half) ≡ n = mod-eq_of_lt (omega arith) in rw e (ground arith)

pub limit_lem : (p : Params) → IsNormalized p → limit p ≡ pos p.page_size
unfolding limit
limit_lem p n = signed_small _ p.page_size (omega (arith, n.size_max))

-- The offset of a normalized request is the number of rows before its page, or MaxInt32 if that is
-- less: it is never negative, and the guard that divides is exact.
pub offset_lem :
    (p : Params) → IsNormalized p → offset p ≡ pos (min ((p.page - 1) * p.page_size) max_int32)
unfolding offset
offset_lem p n = elim (Bool-cases (ltb (max_int32 / p.page_size) (p.page - 1))) [
  | inl past ↦
      let far : max_int32 < (p.page - 1) * p.page_size =
        (div-lt_iff_lt-mul n.size).0 (ltb→lt _ _ past) in
      let e : max_int32 ≡ min ((p.page - 1) * p.page_size) max_int32 = omega (arith, far) in
      rw past (ap pos e)
  | inr within ↦
      let near : (p.page - 1) * p.page_size ≤ max_int32 =
        (le-div_iff_mul-le n.size).0 (ground arith) in
      let e : (p.page - 1) * p.page_size ≡ min ((p.page - 1) * p.page_size) max_int32 =
        omega (arith, near) in
      rw within (signed_small _ _ (omega (arith, near)) ∙ ap pos e)
]

-- `n` pages of the size hold the rows, and `n - 1` pages do not.
abbrev pub AreEnough : ℕ → ℕ → ℕ → Type 0
AreEnough total size n = (total ≤ n * size) × (n * size < total + size)

-- With a total that is not near the end of int64, the number of pages is the ceiling of the total
-- over the size: the pages hold all the rows, and one page less does not.
pub total_pages_lem :
    (total : ℕ) (p : Params)
    → IsNormalized p
    → total < 0x7fff_ffff_ffff_ff00
    → (n : ℕ) × ((total_pages total p.page_size ≡ pos n) × AreEnough total p.page_size n)
unfolding total_pages
total_pages_lem total p n h = elim (Bool-cases (ltb 0 total)) [
  | inl some_rows ↦
      let sum = total + p.page_size - 1 in
      let fits : signed 0x8000_0000_0000_0000 sum ≡ pos sum =
        signed_small _ sum (omega (arith, n.size_max)) in
      let above : sum < sum / p.page_size * p.page_size + p.page_size = lt-div-mul-add n.size in
      (
        sum / p.page_size,
        (
          rw (some_rows, fits) refl,
          (
            omega (arith, n.size, above, ltb→lt 0 total some_rows),
            omega (arith, n.size, div-mul-le_self sum p.page_size, ltb→lt 0 total some_rows),
          ),
        ),
      )
  | inr no_rows ↦ (0, (rw no_rows refl, (ground arith, ground (arith, n.size))))
]

next_iff : (total size page n : ℕ) → AreEnough total size n → ltb page n ≡ ltb (page * size) total
next_iff total size page n (enough, needed) = elim (Bool-cases (ltb page n)) [
  | inl before ↦
      let fewer : (page + 1) * size ≤ n * size =
        mul-le-mul_right size (omega (arith, ltb→lt page n before)) in
      before ∙ sym (lt→ltb (page * size) total (omega (arith, fewer, needed)))
  | inr after ↦
      let more : n * size ≤ page * size = mul-le-mul_right size (ground arith) in
      ground (arith, more, enough)
]

-- The response says that there is a next page exactly when rows remain after the requested page,
-- a page far behind the last one included.
pub build_response-has_next :
    {A : Type 0} (docs : List A) (total : ℕ) (p : Params)
    → IsNormalized p
    → total < 0x7fff_ffff_ffff_ff00
    → (build_response docs total p).pagination.has_next_page ≡ ltb (p.page * p.page_size) total
unfolding build_response
build_response-has_next docs total p n h =
    let pages = total_pages_lem total p n h in
    rw pages.1.0 (next_iff total p.page_size p.page pages.0 pages.1.1)
