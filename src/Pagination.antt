-- ===== src/Pagination.antt =====
-- services/pagination/pagination.go. `Params` is what ParseParams makes, which has no negative
-- field; so its fields are natural numbers.
pub mod Bounds
pub mod Pages
use news_feed_backend.Prelude.{
  ℕ, zero, suc, ◌+◌, ◌-◌, ◌*◌, ◌/◌, ◌%◌, ◌^◌, String, Bool, false, Option, none, some, List, ltb,
  if◌then◌else◌, length, take, drop,
}
use news_feed_backend.Prelude.Int.{ℤ, pos, negsuc}

abbrev pub default_page : ℕ
default_page = 1

abbrev pub default_page_size : ℕ
default_page_size = 20

abbrev pub min_page : ℕ
min_page = 1

abbrev pub min_page_size : ℕ
min_page_size = 1

abbrev pub max_page_size : ℕ
max_page_size = 100

-- math.MaxInt32
abbrev pub max_int32 : ℕ
max_int32 = 2147483647

pub record Params : Type 0 where
  pub page : ℕ
  pub page_size : ℕ

pub record Meta : Type 0 where
  pub actual_page : ℕ
  pub total_pages : ℤ
  pub actual_count : ℕ
  pub total_count : ℕ
  pub has_next_page : Bool
  pub has_previous_page : Bool

pub record Response {ℓ} (A : Type ℓ) : Type ℓ where
  pub docs : List A
  pub pagination : Meta

-- `if n < low { n = low }`
unfoldable pub clamp_below : ℕ → ℤ → ℕ
clamp_below low (pos n) = if ltb n low then low else n
clamp_below low (negsuc n) = low

-- `if n > high { n = high }`
unfoldable pub clamp_above : ℕ → ℕ → ℕ
clamp_above high n = if ltb high n then high else n

-- `if n, err := strconv.Atoi(raw); err == nil { page = n }`
abbrev pub or_default : ℕ → Option ℤ → ℤ
or_default d none = pos d
or_default d (some n) = n

-- `atoi` is strconv.Atoi: the number that the text spells, or an error.
unfoldable pub parse_params : (String → Option ℤ) → String → String → Params
unfolding clamp_below clamp_above
parse_params atoi page_raw page_size_raw = record {
  page = clamp_below min_page (or_default default_page (atoi page_raw));
  page_size =
      clamp_above max_page_size
        (clamp_below min_page_size (or_default default_page_size (atoi page_size_raw)));
}

-- The conversions int32(n) and int64(n), which wrap around.
unfoldable pub signed : ℕ → ℕ → ℤ
signed half n =
    if ltb (n % (2 * half)) half
    then pos (n % (2 * half))
    else negsuc (2 * half - 1 - n % (2 * half))

abbrev pub to_int32 : ℕ → ℤ
to_int32 n = signed 0x8000_0000 n

abbrev pub to_int64 : ℕ → ℤ
to_int64 n = signed 0x8000_0000_0000_0000 n

unfoldable pub limit : Params → ℤ
limit p = to_int32 p.page_size

unfoldable pub offset : Params → ℤ
offset p =
    let pages_to_skip = p.page - 1 in
    if ltb (max_int32 / p.page_size) pages_to_skip
    then pos max_int32
    else to_int32 (pages_to_skip * p.page_size)

abbrev pub negated : ℕ → ℤ
negated zero = pos 0
negated (suc n) = negsuc n

-- Division of Go: the quotient is truncated.
abbrev pub quotient : ℤ → ℕ → ℤ
quotient (pos n) d = pos (n / d)
quotient (negsuc n) d = negated ((n + 1) / d)

unfoldable pub total_pages : ℕ → ℕ → ℤ
total_pages total_count page_size =
    if ltb 0 total_count then quotient (to_int64 (total_count + page_size - 1)) page_size else pos 0

abbrev pub is_before : ℕ → ℤ → Bool
is_before page (pos n) = ltb page n
is_before page (negsuc n) = false

-- A nil slice of documents is the empty one.
unfoldable pub build_response {ℓ} : {A : Type ℓ} → List A → ℕ → Params → Response A
unfolding total_pages
build_response docs total_count p = record {
  docs = docs;
  pagination = record {
    actual_page = p.page;
    total_pages = total_pages total_count p.page_size;
    actual_count = length docs;
    total_count = total_count;
    has_next_page = is_before p.page (total_pages total_count p.page_size);
    has_previous_page = ltb 1 p.page;
  };
}

-- What LIMIT and OFFSET leave of the rows that a query orders; neither is ever negative here, and
-- the database refuses a negative one.
abbrev pub at_least_zero : ℤ → Option ℕ
at_least_zero (pos n) = some n
at_least_zero (negsuc n) = none

abbrev pub window {ℓ} : {A : Type ℓ} → Option ℕ → Option ℕ → List A → Option (List A)
window (some n) (some m) rows = some (take n (drop m rows))
window none m rows = none
window (some n) none rows = none

unfoldable pub rows_of {ℓ} : {A : Type ℓ} → Params → List A → Option (List A)
unfolding limit offset
rows_of p rows = window (at_least_zero (limit p)) (at_least_zero (offset p)) rows
