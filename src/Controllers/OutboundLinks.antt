-- ===== src/Controllers/OutboundLinks.antt =====
-- services/controllers/article_outbound_links.go
use news_feed_backend.Prelude.{String, List, [], ◌∷◌}
use news_feed_backend.Store.{ArticleOutboundLink, M, pure}
use news_feed_backend.Queries.OutboundLinks.{
  create_article_outbound_link, list_article_outbound_links_by_article_ids,
  retarget_article_outbound_links_by_href, delete_article_outbound_links_by_article_id,
}

unfoldable pub create : String → String → String → M ArticleOutboundLink
create id article_id href = create_article_outbound_link id article_id href

unfoldable pub list_by_article_ids : List String → M (List ArticleOutboundLink)
list_by_article_ids [] = pure []
list_by_article_ids (id ∷ ids) = list_article_outbound_links_by_article_ids (id ∷ ids)

unfoldable pub retarget : String → String → M (Unit {0})
retarget old_href new_href = retarget_article_outbound_links_by_href new_href old_href

unfoldable pub delete_by_article_id : String → M (Unit {0})
delete_by_article_id article_id = delete_article_outbound_links_by_article_id article_id
