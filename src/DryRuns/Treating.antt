-- ===== src/DryRuns/Treating.antt =====
-- services/endpoints/v1/articles/treatment.go. Its body treatment is that of the processor, written
-- once more, and internalURLResolver is resolveInternalURLs. A mode names an AI for keywords. The
-- times that the steps take are left out.
use Prim.Native.Char.{Char}
use news_feed_backend.Prelude.{String, str_eq, Option, none, some, List, if◌then◌else◌}
use news_feed_backend.Store.{Result, pure, ◌>>=◌}
use news_feed_backend.Discovery.Processor.{Treatment, treat_urls, treated_content}
use news_feed_backend.Endpoints.Reply.{Handler, respond, guarded, with_body}
use news_feed_backend.Endpoints.Sessions.{internal_failure}
use news_feed_backend.Endpoints.Validation.{is_blank}
use news_feed_backend.DryRuns.Judging.{title_message, mode_or, of_result}

pub record TreatArticleRequest : Type 0 where
  pub title : String
  pub content : String
  pub keywords_mode : String

pub record ArticleTreatmentResponse : Type 0 where
  pub content : String
  pub keywords : List String
  pub keywords_mode : String
  pub language_original : String

-- keyworder.Keywords: the title and the plain text.
abbrev pub Keyworder : Type 0
Keyworder = String → String → Result (List String)

abbrev pub content_message : String → String
content_message content = if is_blank content then "article.content is required" else ""

abbrev pub language_or_empty : Option String → String
language_or_empty none = ""
language_or_empty (some l) = l

module _ (lower : Char → Char) (t : Treatment) where
  abbrev pub treated_response :
      TreatArticleRequest → String → String → List String → ArticleTreatmentResponse
  treated_response r mode body keywords = record {
    content = treated_content lower t body;
    keywords = keywords;
    keywords_mode = mode;
    language_original = language_or_empty (t.detect r.title r.content);
  }

  -- Behind the guards.
  unfoldable pub treat_with :
      TreatArticleRequest → String → Keyworder → Handler ArticleTreatmentResponse
  treat_with r mode name = respond 200 internal_failure (
      treat_urls lower t (str_eq t.client_url "") r.content >>= λ body.
      of_result (name r.title (t.plain_text (treated_content lower t body))) >>= λ keywords.
      pure (treated_response r mode body keywords))

  unfoldable pub treat_article :
      (String → Option Keyworder)
      → String
      → Option TreatArticleRequest
      → Handler ArticleTreatmentResponse
  unfolding treat_with
  treat_article keyworders default_mode body = with_body body λ r. guarded (title_message r.title) (
      guarded (content_message r.content) (
        with_body (keyworders (mode_or default_mode r.keywords_mode))
          λ name. treat_with r (mode_or default_mode r.keywords_mode) name))
