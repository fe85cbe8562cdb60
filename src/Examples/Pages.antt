-- ===== src/Examples/Pages.antt =====
-- Pages of a list of five rows, two to a page.
use news_feed_backend.Prelude.{◌*◌, String, ◌≡◌, some, Option, List, [], ◌∷◌, ltb, arith}
use news_feed_backend.Prelude.Int.{ℤ, negsuc}
use news_feed_backend.Pagination.{Params, build_response}
use news_feed_backend.Pagination.Bounds.{IsNormalized, build_response-has_next}

abbrev rows : List String
rows = "a" ∷ "b" ∷ "c" ∷ "d" ∷ "e" ∷ []

abbrev second_of_two : Params
second_of_two = record { page = 2; page_size = 2 }

normalized : IsNormalized second_of_two
normalized = omega arith

-- Every text reads as -7.
abbrev below_zero : String → Option ℤ
below_zero s = some (negsuc 6)

build_response-has_next_example :
    (build_response {A = String} ("c" ∷ "d" ∷ []) 5 second_of_two).pagination.has_next_page
    ≡ ltb (2 * 2) 5
build_response-has_next_example =
    build_response-has_next ("c" ∷ "d" ∷ []) 5 second_of_two normalized (omega arith)
