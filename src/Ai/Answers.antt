-- ===== src/Ai/Answers.antt =====
-- services/ai: stripCodeFence, ParseKeywords with decodeKeywordList (keywords.go), ParseScore with
-- decodeScore (judgement.go) and ParseTranslation (translation.go). What json.Unmarshal makes of a
-- text is a parameter, for each of the shapes that it is asked for.
use Prim.Native.Char.{Char}
use Prim.Native.String.{[] as end, ◌∷◌ as ◌then◌}
use news_feed_backend.Prelude.{
  ℕ, String, str_eq, Bool, ◌||◌, Option, none, some, List, [], ltb, length, if◌then◌else◌,
}
use news_feed_backend.Prelude.Int.{ℤ, pos, negsuc}
use news_feed_backend.Controllers.Keywords.{trim_space}
use news_feed_backend.Outbound.Hrefs.{strip_prefix, is_some}
use news_feed_backend.Reading.Suggestions.{add_parts}

abbrev pub fence : String
fence = "```"

abbrev pub or_whole : String → Option String → String
or_whole s none = s
or_whole s (some rest) = rest

-- strings.TrimPrefix
abbrev pub trim_prefix : String → String → String
trim_prefix prefix s = or_whole s (strip_prefix prefix s)

abbrev pub before_fence : Bool → Char → String → Option String → Option String
before_fence here c s (some before) = some (c then before)
before_fence here c s none = if here then some end else none

-- What stands before the last fence: strings.LastIndex, and the slice up to it.
unfoldable pub cut_last : String → Option String
cut_last end = none
cut_last (c then s) = before_fence (is_some (strip_prefix fence (c then s))) c s (cut_last s)

abbrev pub without_fence : String → Option String → String
without_fence s none = s
without_fence s (some rest) =
    let body = trim_prefix "json" rest in trim_space (or_whole body (cut_last body))

unfoldable pub strip_code_fence : String → String
unfolding cut_last
strip_code_fence s = without_fence s (strip_prefix fence s)

-- The first line of each parser.
unfoldable pub cleaned : String → String
unfolding strip_code_fence
cleaned raw = strip_code_fence (trim_space raw)

-- schemas.ArticleKeywordsMin and schemas.ArticleKeywordsMax
abbrev pub article_keywords_min : ℕ
article_keywords_min = 5

abbrev pub article_keywords_max : ℕ
article_keywords_max = 30

abbrev pub list_or : Option (List String) → Option (List String) → Option (List String)
list_or none decoded = decoded
list_or (some arr) decoded = some arr

-- `as_list` and `as_object` unmarshal a list of texts and an object with keywords.
unfoldable pub decode_keyword_list :
    (String → Option (List String))
    → (String → Option (List String))
    → String
    → Option (List String)
decode_keyword_list as_list as_object s = list_or (as_list s) (as_object s)

module _ (lower : Char → Char) (as_list as_object : String → Option (List String)) where
  -- The loop is that of parseSelectedKeywords, written once more.
  abbrev pub distinct_keywords : List String → List String
  distinct_keywords decoded = add_parts lower [] decoded

  abbrev pub if_counted : List String → Option (List String)
  if_counted keywords =
      if ltb (length keywords) article_keywords_min || ltb article_keywords_max (length keywords)
      then none
      else some keywords

  abbrev pub keywords_of : Option (List String) → Option (List String)
  keywords_of none = none
  keywords_of (some decoded) = if_counted (distinct_keywords decoded)

  -- `none` is ErrInvalidKeywords.
  unfoldable pub parse_keywords : String → Option (List String)
  unfolding decode_keyword_list cleaned
  parse_keywords raw = keywords_of (decode_keyword_list as_list as_object (cleaned raw))

-- `as_score` unmarshals an object with a score, which may be missing; `atoi` is strconv.Atoi.
module _ (as_score : String → Option (Option ℤ)) (atoi : String → Option ℤ) where
  abbrev pub score_or : Option (Option ℤ) → Option ℤ → Option ℤ
  score_or (some (some score)) bare = some score
  score_or (some none) bare = bare
  score_or none bare = bare

  unfoldable pub decode_score : String → Option ℤ
  decode_score s = score_or (as_score s) (atoi (trim_space s))

  abbrev pub if_in_range : Option ℤ → Option ℕ
  if_in_range none = none
  if_in_range (some (negsuc n)) = none
  if_in_range (some (pos n)) = if ltb 100 n then none else some n

  -- `none` is ErrInvalidScore.
  unfoldable pub parse_score : String → Option ℕ
  unfolding decode_score cleaned
  parse_score raw = if_in_range (decode_score (cleaned raw))

pub record Translation : Type 0 where
  pub title : String
  pub content : String

abbrev pub trimmed : Translation → Translation
trimmed t = record { title = trim_space t.title; content = trim_space t.content }

abbrev pub if_complete : Translation → Option Translation
if_complete t = if str_eq t.title "" || str_eq t.content "" then none else some t

abbrev pub translation_of : Option Translation → Option Translation
translation_of none = none
translation_of (some t) = if_complete (trimmed t)

-- `as_translation` unmarshals an object with a title and a content; `none` is
-- ErrInvalidTranslation.
unfoldable pub parse_translation : (String → Option Translation) → String → Option Translation
unfolding cleaned
parse_translation as_translation raw = translation_of (as_translation (cleaned raw))
