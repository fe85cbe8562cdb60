-- ===== src/Discovery/Sweep.antt =====
-- DiscoveryRunner of services/cron/cron.go with one worker: Run, fetchAll and fetchOne.
use Prim.Native.Char.{Char}
use news_feed_backend.Prelude.{
  ℕ, String, Bool, true, false, Option, none, some, List, [], ◌∷◌, ◌++◌, ltb, length, take,
  if◌then◌else◌,
}
use news_feed_backend.Prelude.Int.{ℤ, pos, negsuc}
use news_feed_backend.Store.{Source, M, pure, ◌>>=◌, ◌>>◌, now_is, with_transaction}
use news_feed_backend.Controllers.ControlPanel
use news_feed_backend.Controllers.Sources
use news_feed_backend.Discovery.Items.{DiscoveredArticle, FeedItem, discover_from_source}
use news_feed_backend.Discovery.Processor.{Treatment, Ai, process}

-- The fields of the runner, and what the network answers in this run: `fetch` the feeds, `ai` the
-- provider of the AI.
pub record Runner : Type 0 where
  pub treatment : Treatment
  pub max_articles : ℤ
  pub fetch : String → Option (List (Option FeedItem))
  pub ai : ℕ → Ai

abbrev pub items_or_none : Option (List DiscoveredArticle) → List DiscoveredArticle
items_or_none none = []
items_or_none (some items) = items

-- A source whose feed cannot be read is passed over.
unfoldable pub fetch_all :
    (String → Option (List (Option FeedItem))) → List Source → List DiscoveredArticle
fetch_all fetch [] = []
fetch_all fetch (source ∷ sources) =
    items_or_none (discover_from_source fetch source none) ++ fetch_all fetch sources

-- `if r.maxArticles >= 0 && len(all) > r.maxArticles { all = all[:r.maxArticles] }`
unfoldable pub capped : ℤ → List DiscoveredArticle → List DiscoveredArticle
capped (pos n) all = if ltb n (length all) then take n all else all
capped (negsuc n) all = all

-- The sources of a run, or nothing while the application is off.
abbrev pub sources_if : Bool → M (Option (List Source))
sources_if false = pure none
sources_if true = do sources ← Sources.list_all; pure (some sources)

unfoldable pub read_sources : M (Option (List Source))
read_sources = do system ← ControlPanel.get; sources_if system.app_status

module _ (lower : Char → Char) (r : Runner) where
  abbrev pub sweep : ℕ → Option (List Source) → M (Unit {0})
  sweep now none = pure tt
  sweep now (some sources) = do
    process lower r.treatment r.ai 0 (capped r.max_articles (fetch_all r.fetch sources))
    with_transaction (ControlPanel.update_last_article_discovery now)
    pure tt

  unfoldable pub run_sweep : M (Unit {0})
  unfolding capped fetch_all
  run_sweep = do now ← now_is; sources ← with_transaction read_sources; sweep now sources
