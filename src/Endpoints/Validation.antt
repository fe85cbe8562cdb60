-- ===== src/Endpoints/Validation.antt =====
-- The structural checks of the payloads: validateArticleInput, validateLanguageOriginal,
-- validateFeedInput, the checks of the source handlers, and schemas/enums. The empty text means
-- that the input is valid. `valid_url` is isValidURL, which asks net/url.
use Prim.Native.String.{len}
use news_feed_backend.Prelude.{
  ℕ, String, str_eq, Bool, false, not, ◌||◌, List, [], ◌∷◌, ltb, length, if◌then◌else◌,
}
use news_feed_backend.Controllers.Keywords.{trim_space}

abbrev pub is_blank : String → Bool
is_blank s = str_eq (trim_space s) ""

abbrev pub any_blank : List String → Bool
any_blank [] = false
any_blank (k ∷ ks) = is_blank k || any_blank ks

abbrev pub keywords_message : ℕ → List String → String
keywords_message most keywords =
    if ltb (length keywords) 5
    then "keywords must have at least 5 items"
    else if ltb most (length keywords)
    then "keywords must have at most 20 items"
    else if any_blank keywords
    then "keywords must not contain empty values"
    else ""

abbrev pub is_language : String → Bool
is_language l =
    str_eq l "pt"
    || (str_eq l "en" || (str_eq l "es" || (str_eq l "fr" || (str_eq l "de" || str_eq l "it"))))

abbrev pub is_personality : String → Bool
is_personality p = str_eq p "fun" || (str_eq p "informative" || str_eq p "mixed")

unfoldable pub validate_language_original : String → String
validate_language_original language =
    if str_eq language ""
    then "language_original is required"
    else if is_language language
    then ""
    else "language_original must be a supported language code"

-- len counts bytes.
unfoldable pub validate_feed_input : String → List String → String
validate_feed_input name keywords =
    if is_blank name
    then "name is required"
    else if ltb 120 (len name)
    then "name must have at most 120 characters"
    else keywords_message 20 keywords

module _ (valid_url : String → Bool) where
  unfoldable pub validate_article_input : String → String → String → List String → String
  validate_article_input title content url_original keywords =
      if is_blank title
      then "title is required"
      else if is_blank content
      then "content is required"
      else if str_eq url_original ""
      then "url_original is required"
      else if not (valid_url url_original)
      then "url_original must be a valid http or https URL"
      else keywords_message 30 keywords

  unfoldable pub validate_source_input : String → String → String → String
  validate_source_input name url url_rss =
      if str_eq name ""
      then "name is required"
      else if ltb 120 (len name)
      then "name must be at most 120 characters"
      else if str_eq url ""
      then "url is required"
      else if str_eq url_rss ""
      then "url_rss is required"
      else if not (valid_url url)
      then "url must be a valid http or https URL"
      else if not (valid_url url_rss)
      then "url_rss must be a valid http or https URL"
      else ""
