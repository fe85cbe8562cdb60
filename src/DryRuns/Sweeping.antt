-- ===== src/DryRuns/Sweeping.antt =====
-- services/endpoints/v1/sources/article_discovery.go. `fetch` is fetchFeed as in Discovery.Items,
-- and `parse_time` is time.Parse with the layout RFC3339; the zero time is `none`.
use news_feed_backend.Prelude.{ℕ, String, Bool, true, false, Option, none, some, List, [], ◌∷◌}
use news_feed_backend.Store.{
  Article, Error, Result, ok, err, M, pure, raise, ◌>>=◌, attempt, with_transaction, parse_failure,
}
use news_feed_backend.Controllers.Articles
use news_feed_backend.Controllers.Sources
use news_feed_backend.Discovery.Items.{FeedItem, DiscoveredArticle, discover_from_source}
use news_feed_backend.Discovery.Lookup.{is_article_not_found}
use news_feed_backend.Endpoints.Reply.{Handler, respond, with_body}
use news_feed_backend.Reading.FeedArticles.{parse_utc_time}
use news_feed_backend.Reading.Lookups.{source_failure}

abbrev pub with_item : DiscoveredArticle → M (List DiscoveredArticle) → M (List DiscoveredArticle)
with_item item rest = do items ← rest; pure (item ∷ items)

abbrev pub unless_failed : Bool → Error → M (List DiscoveredArticle) → M (List DiscoveredArticle)
unless_failed true e more = more
unless_failed false e more = raise e

-- The tests of the loop, and the rest of it.
abbrev pub fresh_of :
    DiscoveredArticle → Result Article → M (List DiscoveredArticle) → M (List DiscoveredArticle)
fresh_of item (ok a) rest = rest
fresh_of item (err e) rest = unless_failed (is_article_not_found e) e (with_item item rest)

-- The body of the transaction of filterNewByURLOriginal.
unfoldable pub filter_items : List DiscoveredArticle → M (List DiscoveredArticle)
filter_items [] = pure []
filter_items (item ∷ items) = do
  found ← attempt (Articles.find_by_url_original item.url_original)
  fresh_of item found (filter_items items)

unfoldable pub filter_new_by_url_original : List DiscoveredArticle → M (List DiscoveredArticle)
unfolding filter_items
filter_new_by_url_original items = with_transaction (filter_items items)

abbrev pub filter_discovered : Option (List DiscoveredArticle) → M (List DiscoveredArticle)
filter_discovered none = raise parse_failure
filter_discovered (some items) = filter_new_by_url_original items

module _ (fetch : String → Option (List (Option FeedItem))) (parse_time : String → Option ℕ) where
  abbrev pub discover : String → Option ℕ → M (List DiscoveredArticle)
  discover id since = with_transaction (Sources.find_by_id id) >>= λ source.
      filter_discovered (discover_from_source fetch source since)

  -- The response has the fields of the items.
  unfoldable pub source_article_discovery : String → String → Handler (List DiscoveredArticle)
  source_article_discovery id raw =
      with_body (parse_utc_time parse_time raw)
        λ since. respond 200 source_failure (discover id since)
