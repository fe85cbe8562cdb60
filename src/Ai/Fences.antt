-- ===== src/Ai/Fences.antt =====
-- An answer of a model in a code fence, and the same answer without it.
use Prim.Native.Char.{Char, code}
use Prim.Native.String.{String, [], ◌∷◌, ◌++◌}
use text.Mathlib.TextLemmas.{cons-append, append_assoc}
use news_feed_backend.Prelude.{
  ◌≡◌, ◌∙◌, refl, ap, sym, Bool, false, Option, none, some, ◌&&◌, arith,
}
use news_feed_backend.Prelude.{List as Seq}
use news_feed_backend.Prelude.Int.{ℤ}
use news_feed_backend.Controllers.Keywords.{is_space, is_empty, trim_left, trim_right, trim_space}
use news_feed_backend.Outbound.Hrefs.{strip_prefix}
use news_feed_backend.Outbound.RoundTrip.{strip_self}
use news_feed_backend.Ai.Answers.{
  fence, cut_last, strip_code_fence, cleaned, parse_keywords, parse_score, parse_translation,
  Translation,
}

-- The last fence is the one at the end.
cut_last-append : (body : String) → cut_last (body ++ fence) ≡ some body
unfolding cut_last strip_prefix
cut_last-append [] = refl
cut_last-append (c ∷ s) = rw (cons-append c s fence, cut_last-append s) refl

is_empty-append : (x : String) → is_empty (x ++ fence) ≡ false
unfolding is_empty
is_empty-append [] = refl
is_empty-append (c ∷ s) = rw (cons-append c s fence) refl

and_false : (b : Bool) → (b && false) ≡ false
and_false b = ground arith

-- A text that ends with a fence has no space at its end.
trim_right-append : (x : String) → trim_right (x ++ fence) ≡ x ++ fence
unfolding trim_right is_space is_empty
trim_right-append [] = refl
trim_right-append (c ∷ s) =
    rw
      (cons-append c s fence, trim_right-append s, is_empty-append s, and_false (is_space (code c)))
      refl

-- The text in a fence that names the language, as models write it.
abbrev pub fenced : String → String
fenced body = ("```json" ++ body) ++ fence

trim_space-fenced : (body : String) → trim_space (fenced body) ≡ fenced body
unfolding trim_space trim_left is_space
trim_space-fenced body =
    let apart : fenced body ≡ "`" ∷ (("``json" ++ body) ++ fence) =
      ap (λ x. x ++ fence) (cons-append "`" "``json" body)
      ∙ cons-append "`" ("``json" ++ body) fence in
    let left : trim_left (fenced body) ≡ fenced body = ap trim_left apart ∙ sym apart in
    ap trim_right left ∙ trim_right-append ("```json" ++ body)

strip_code_fence-fenced : (body : String) → strip_code_fence (fenced body) ≡ trim_space body
unfolding strip_code_fence
strip_code_fence-fenced body =
    let apart : fenced body ≡ fence ++ ("json" ++ (body ++ fence)) =
      ap (λ x. x ++ fence) (append_assoc fence "json" body)
      ∙ append_assoc fence ("json" ++ body) fence
      ∙ ap (λ x. fence ++ x) (append_assoc "json" body fence) in
    let first : strip_prefix fence (fenced body) ≡ some ("json" ++ (body ++ fence)) =
      ap (strip_prefix fence) apart ∙ strip_self fence ("json" ++ (body ++ fence)) in
    rw (first, strip_self "json" (body ++ fence), cut_last-append body) refl

cleaned-fenced :
    (body : String)
    → strip_prefix fence (trim_space body) ≡ none
    → cleaned (fenced body) ≡ cleaned body
unfolding cleaned strip_code_fence
cleaned-fenced body bare =
    ap strip_code_fence (trim_space-fenced body) ∙ strip_code_fence-fenced body ∙ rw bare refl

-- Keywords, a score and a translation in a code fence that begins with ```json are read as without
-- it, if the text itself does not begin with a fence.
pub parse-fenced :
    (lower : Char → Char) (as_list as_object : String → Option (Seq String))
    (as_score : String → Option (Option ℤ)) (atoi : String → Option ℤ)
    (as_translation : String → Option Translation) (body : String)
    → strip_prefix fence (trim_space body) ≡ none
    → (parse_keywords lower as_list as_object (fenced body)
        ≡ parse_keywords lower as_list as_object body)
      × ((parse_score as_score atoi (fenced body) ≡ parse_score as_score atoi body)
          × (parse_translation as_translation (fenced body)
              ≡ parse_translation as_translation body))
unfolding parse_keywords parse_score parse_translation
parse-fenced lower as_list as_object as_score atoi as_translation body bare =
    let same = cleaned-fenced body bare in rw same (refl, (refl, refl))
