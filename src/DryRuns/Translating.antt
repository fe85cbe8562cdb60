-- ===== src/DryRuns/Translating.antt =====
-- services/endpoints/v1/articles/translate.go, for the user of the claims. `parse` and `render` are
-- the HTML library, `sanitize` is the policy of services/sanitize and `translate` the AI.
use news_feed_backend.Prelude.{ℕ, String, str_eq, Option, List, [], ◌∷◌, if◌then◌else◌}
use news_feed_backend.Store.{
  Article, ArticleOutboundLink, Error, Result, ok, err, World, M, pure, ◌>>=◌, with_transaction,
}
use news_feed_backend.Controllers.Articles
use news_feed_backend.Controllers.OutboundLinks
use news_feed_backend.Outbound.Anchors.{Nodes}
use news_feed_backend.Outbound.Bodies.{resolve}
use news_feed_backend.Endpoints.Articles as ArticleEndpoints
use news_feed_backend.Endpoints.Reply.{
  Reply, failed, Handler, respond, guarded, with_body, id_message,
}
use news_feed_backend.Endpoints.Sessions.{internal_failure}
use news_feed_backend.Endpoints.Validation.{is_language}
use news_feed_backend.Reading.Responses.{outbound_links_by_id}
use news_feed_backend.Ai.Answers.{Translation}
use news_feed_backend.DryRuns.Judging.{of_result}

pub record ArticleTranslationResponse : Type 0 where
  pub title : String
  pub content : String
  pub language : String
  pub language_original : String

-- DisplayName of schemas/enums/language.go
unfoldable pub display_name : String → String
display_name l =
    if str_eq l "pt"
    then "Portuguese"
    else if str_eq l "en"
    then "English"
    else if str_eq l "es"
    then "Spanish"
    else if str_eq l "fr"
    then "French"
    else if str_eq l "de"
    then "German"
    else if str_eq l "it"
    then "Italian"
    else ""

abbrev pub target_message : String → String
target_message target = if is_language target then "" else "unsupported target language"

abbrev pub same_message : String → String → String
same_message original target =
    if str_eq original target then "target language matches the article's original language" else ""

pub record FoundBody : Type 0 where
  pub article : Article
  pub links : List ArticleOutboundLink

-- The body of the transaction.
unfoldable pub find_body : String → M FoundBody
find_body id = do
  article ← Articles.find_by_id id
  links ← OutboundLinks.list_by_article_ids (id ∷ [])
  pure (record { article = article; links = links })

-- What a handler does with what its transaction found, or the status of the error.
abbrev pub go_on :
    {A B : Type 0} → (Error → ℕ) → (A → Handler B) → Result A × World → Reply B × World
go_on failure next (ok a, w) = next a w
go_on failure next (err e, w) = (failed (failure e), w)

module _ (parse : String → Option Nodes) (render : Nodes → Option String)
    (sanitize : String → String)
    (translate : String → String → String → String → Result Translation) (client_url : String) where
  abbrev pub translated_response : String → String → Translation → ArticleTranslationResponse
  translated_response target original translation = record {
    title = translation.title;
    content = sanitize translation.content;
    language = target;
    language_original = original;
  }

  -- The links of the body are real when the AI gets it.
  abbrev pub ask_translation :
      String → String → FoundBody → String → Handler ArticleTranslationResponse
  ask_translation target personality found original = respond 200 internal_failure (
      of_result (
        translate (display_name target) personality found.article.title (
          resolve parse render found.article.content (outbound_links_by_id found.links) client_url))
      >>= λ translation. pure (translated_response target original translation))

  -- Behind the transaction.
  unfoldable pub translate_found : String → String → FoundBody → Handler ArticleTranslationResponse
  translate_found target personality found = with_body found.article.language_original λ original.
      guarded (same_message original target) (ask_translation target personality found original)

  unfoldable pub translate_article :
      Option String → String → String → Handler ArticleTranslationResponse
  unfolding translate_found
  translate_article language personality id = guarded (id_message id) (
      with_body language λ target. guarded (target_message target) (λ w.
        go_on ArticleEndpoints.not_found_failure (translate_found target personality)
          (with_transaction (find_body id) w)))
