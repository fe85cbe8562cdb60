-- ===== src/Discovery/Items.antt =====
-- DiscoverFromSource and itemContent of services/discovery/discovery.go. `fetch` is fetchFeed: the
-- items of the feed at a URL, or nothing when it cannot be read; a nil item is `none`.
use news_feed_backend.Prelude.{
  ℕ, String, str_eq, Bool, false, not, ltb, Option, none, some, List, [], ◌∷◌, if◌then◌else◌,
}
use news_feed_backend.Store.{Source}

-- What is read of gofeed.Item; `published` is PublishedParsed.
pub record FeedItem : Type 0 where
  pub title : String
  pub content : String
  pub description : String
  pub link : String
  pub published : Option ℕ

pub record DiscoveredArticle : Type 0 where
  pub title : String
  pub content : String
  pub url_original : String
  pub published_at : Option ℕ
  pub source_id : String

abbrev pub item_content : FeedItem → String
item_content item = if str_eq item.content "" then item.description else item.content

-- `!since.IsZero() && !utc.After(since)`; the zero time is `none`.
abbrev pub is_older : Option ℕ → Option ℕ → Bool
is_older since none = false
is_older none (some at) = false
is_older (some bound) (some at) = not (ltb bound at)

abbrev pub of_item : Source → FeedItem → DiscoveredArticle
of_item source item = record {
  title = item.title;
  content = item_content item;
  url_original = item.link;
  published_at = item.published;
  source_id = source.id;
}

unfoldable pub of_items : Source → Option ℕ → List (Option FeedItem) → List DiscoveredArticle
of_items source since [] = []
of_items source since (none ∷ items) = of_items source since items
of_items source since (some item ∷ items) =
    if is_older since item.published
    then of_items source since items
    else of_item source item ∷ of_items source since items

abbrev pub discovered :
    Source → Option ℕ → Option (List (Option FeedItem)) → Option (List DiscoveredArticle)
discovered source since none = none
discovered source since (some items) = some (of_items source since items)

unfoldable pub discover_from_source :
    (String → Option (List (Option FeedItem))) → Source → Option ℕ → Option (List DiscoveredArticle)
unfolding of_items
discover_from_source fetch source since = discovered source since (fetch source.url_rss)
