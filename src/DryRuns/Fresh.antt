-- ===== src/DryRuns/Fresh.antt =====
-- What SourceArticleDiscovery of services/endpoints/v1/sources/article_discovery.go lists.
use news_feed_backend.Prelude.{
  ℕ, String, ◌≡◌, refl, Bool, not, Option, none, some, List, [], ◌∷◌, select, exists, find_first,
  exists_of_find_first, Option-cases, inl, inr,
}
use news_feed_backend.Store.{
  Db, Source, ok, with_transaction, begun, finish, committed, read, query, answered,
}
use news_feed_backend.Queries.Articles.{has_active_url, find_article_by_url_original}
use news_feed_backend.Queries.Sources.{is_active_source, find_source_by_id}
use news_feed_backend.Controllers.Articles
use news_feed_backend.Controllers.Sources
use news_feed_backend.Discovery.Items.{FeedItem, DiscoveredArticle, of_items, discover_from_source}
use news_feed_backend.Endpoints.Reply.{done, failed, respond, with_body}
use news_feed_backend.Outcomes.Tokens.{calm}
use news_feed_backend.Reading.FeedArticles.{parse_utc_time}
use news_feed_backend.Reading.Unread.{exists-none}
use news_feed_backend.DryRuns.Sweeping.{
  filter_items, filter_new_by_url_original, source_article_discovery,
}

module _ (db : Db) (now : ℕ) where
  -- No active article has the URL of the item.
  abbrev pub is_new : DiscoveredArticle → Bool
  is_new item = not (exists (has_active_url item.url_original) db.articles)

  filter_items_lem :
      (items : List DiscoveredArticle)
      → filter_items items (calm db now []) ≡ (ok (select is_new items), calm db now [])
  unfolding filter_items select Articles.find_by_url_original find_article_by_url_original read
      query answered
  filter_items_lem [] = refl
  filter_items_lem (item ∷ items) =
      elim (Option-cases (find_first (has_active_url item.url_original) db.articles)) [
        | inl missing ↦ rw (missing, exists-none _ db.articles missing, filter_items_lem items) refl
        | inr (a, found) ↦
            rw (found, exists_of_find_first _ db.articles a found, filter_items_lem items) refl
      ]

  module _ (fetch : String → Option (List (Option FeedItem))) (parse_time : String → Option ℕ)
      (id raw : String) (since : Option ℕ)
      (parsed : parse_utc_time parse_time raw ≡ some since) where
    -- While no statement fails, the dry run of the discovery lists exactly the items of the feed of
    -- an active source that are not older than the bound and whose URL no active article has, in
    -- their order.
    pub source_article_discovery_lem :
        (source : Source) (items : List (Option FeedItem))
        → find_first (is_active_source id) db.sources ≡ some source
        → fetch source.url_rss ≡ some items
        → (source_article_discovery fetch parse_time id raw (calm db now [])).0
          ≡ done 200 (select is_new (of_items source since items))
    unfolding source_article_discovery with_body respond with_transaction begun finish committed
        Sources.find_by_id find_source_by_id read query answered discover_from_source
        filter_new_by_url_original
    source_article_discovery_lem source items there fetched =
        let listed = filter_items_lem (of_items source since items) in
        rw (parsed, there, fetched, listed) refl

    -- A source that is missing or removed is not found.
    pub source_article_discovery-hidden :
        find_first (is_active_source id) db.sources ≡ none
        → (source_article_discovery fetch parse_time id raw (calm db now [])).0 ≡ failed 404
    unfolding source_article_discovery with_body respond with_transaction begun finish committed
        Sources.find_by_id find_source_by_id read query answered
    source_article_discovery-hidden hidden = rw (parsed, hidden) refl
