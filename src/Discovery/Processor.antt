-- ===== src/Discovery/Processor.antt =====
-- TreatmentProcessor of services/discovery/processor.go: processOne, and Process with one worker,
-- which takes the articles one after another.
use Prim.Native.Char.{Char}
use news_feed_backend.Prelude.{
  ℕ, ◌+◌, String, str_eq, Bool, true, false, Option, none, some, List, [], ◌∷◌,
}
use news_feed_backend.Prelude.Int.{ℤ}
use news_feed_backend.Store.{Article, Result, ok, err, M, pure, ◌>>=◌, ◌>>◌, attempt}
use news_feed_backend.Outbound.Anchors.{Nodes}
use news_feed_backend.Judgement.{Evaluator}
use news_feed_backend.Discovery.Items.{DiscoveredArticle}
use news_feed_backend.Discovery.Lookup.{already_exists, resolve_internal_urls}
use news_feed_backend.Discovery.UrlTreatment.{treat}
use news_feed_backend.Discovery.Persist.{persist}
use news_feed_backend.Discovery.Judge.{judge}

-- The fields of the processor. `parse` and `render` are those of the HTML library, `embed` is
-- embedtreatment.Treat with the client URL, `sanitize` and `plain_text` are the policies of
-- services/sanitize, `detect` the language detector.
pub record Treatment : Type 0 where
  pub parse : String → Option Nodes
  pub render : Nodes → Option String
  pub embed : String → Option String
  pub sanitize : String → String
  pub plain_text : String → String
  pub detect : String → String → Option String
  pub client_url : String
  pub evaluator : Evaluator
  pub inactive_days : ℤ

-- What the AI answers about one article.
pub record Ai : Type 0 where
  pub keywords : String → String → Result (List String)
  pub judge : ℕ → List String → String → List String → Result ℕ

abbrev pub or_content {ℓ} : {A : Type ℓ} → A → Option A → A
or_content content none = content
or_content content (some treated) = treated

abbrev pub result_or {ℓ} : {A : Type ℓ} → A → Result A → A
result_or content (err e) = content
result_or content (ok treated) = treated

module _ (lower : Char → Char) (t : Treatment) where
  abbrev pub treat_urls : Bool → String → M String
  treat_urls true content = pure content
  treat_urls false content = do
    treated ← attempt (treat t.parse t.render (resolve_internal_urls t.client_url) content)
    pure (result_or content treated)

  abbrev pub treated_content : String → String
  treated_content body = t.sanitize (or_content body (t.embed body))

  abbrev pub judge_saved : Ai → List String → Result Article → M (Unit {0})
  judge_saved ai keywords (err e) = pure tt
  judge_saved ai keywords (ok saved) =
      judge lower ai.judge t.evaluator t.inactive_days saved keywords

  abbrev pub keep_article : Ai → DiscoveredArticle → String → Result (List String) → M (Unit {0})
  keep_article ai article content (err e) = pure tt
  keep_article ai article content (ok keywords) = do
    saved ← attempt (
        persist lower t.parse t.render t.client_url article content keywords
          (t.detect article.title article.content))
    judge_saved ai keywords saved

  -- The part of processOne behind the dedup check.
  unfoldable pub treat_new : Ai → DiscoveredArticle → M (Unit {0})
  treat_new ai article = do
    body ← treat_urls (str_eq t.client_url "") article.content
    keep_article ai article (treated_content body)
        (ai.keywords article.title (t.plain_text (treated_content body)))

  abbrev pub unless_known : Ai → DiscoveredArticle → Result Bool → M (Unit {0})
  unless_known ai article (err e) = pure tt
  unless_known ai article (ok true) = pure tt
  unless_known ai article (ok false) = treat_new ai article

  unfoldable pub process_one : Ai → DiscoveredArticle → M (Unit {0})
  unfolding treat_new
  process_one ai article = do
    known ← attempt (already_exists article.url_original)
    unless_known ai article known

  -- `ai i` answers about the article number `i`.
  unfoldable pub process : (ℕ → Ai) → ℕ → List DiscoveredArticle → M (Unit {0})
  process ai i [] = pure tt
  process ai i (article ∷ articles) = do process_one (ai i) article; process ai (i + 1) articles
