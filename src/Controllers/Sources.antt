-- ===== src/Controllers/Sources.antt =====
-- services/controllers/sources.go
use news_feed_backend.Prelude.{String, List}
use news_feed_backend.Store.{
  Source, M, ◌>>=◌, ◌>>◌, map_err, new_uuid, source_not_found, source_already_exists,
}
use news_feed_backend.Queries.Sources.{
  create_source, find_source_by_id, update_source, soft_delete_source,
}
use news_feed_backend.Queries.Listing.{list_all_sources}
use news_feed_backend.Queries.Articles.{soft_delete_articles_by_source_id}
use news_feed_backend.Queries.OutboundLinks.{retarget_article_outbound_links_by_source_id}
use news_feed_backend.Controllers.Errors.{when_missing, when_taken}
use news_feed_backend.Outbound.Hrefs.{internal_href_prefix}

unfoldable pub create : String → String → String → M Source
create name url url_rss = do
  id ← new_uuid
  map_err (when_taken source_already_exists)
      (create_source (record { id = id; name = name; url = url; url_rss = url_rss }))

unfoldable pub find_by_id : String → M Source
find_by_id id = map_err (when_missing source_not_found) (find_source_by_id id)

unfoldable pub list_all : M (List Source)
list_all = list_all_sources

unfoldable pub update : String → String → String → String → M Source
update id name url url_rss =
    map_err (λ e. when_taken source_already_exists (when_missing source_not_found e))
      (update_source (record { id = id; name = name; url = url; url_rss = url_rss }))

unfoldable pub soft_delete : String → M (Unit {0})
soft_delete id = do
  soft_delete_source id
  retarget_article_outbound_links_by_source_id id internal_href_prefix
  soft_delete_articles_by_source_id id
