-- ===== src/Discovery/Persist.antt =====
-- persist of services/discovery/processor.go.
use Prim.Native.Char.{Char}
use news_feed_backend.Prelude.{String, Option, List, [], ◌∷◌}
use news_feed_backend.Store.{
  Article, Result, ok, err, M, pure, ◌>>=◌, ◌>>◌, attempt, with_transaction,
}
use news_feed_backend.Controllers.Articles
use news_feed_backend.Controllers.OutboundLinks
use news_feed_backend.Outbound.Hrefs.{internal_href}
use news_feed_backend.Outbound.Anchors.{Nodes}
use news_feed_backend.Outbound.Bodies.{Link, Assigned, assign}
use news_feed_backend.Discovery.Items.{DiscoveredArticle}

unfoldable pub create_links : String → List Link → M (Unit {0})
create_links article_id [] = pure tt
create_links article_id (l ∷ links) = do
  OutboundLinks.create l.id article_id l.href
  create_links article_id links

-- The rows of the links, and the body that names them.
abbrev pub with_links : Article → String → List Link → M Article
with_links saved rewritten [] = pure saved
with_links saved rewritten (l ∷ links) = do
  create_links saved.id (l ∷ links)
  Articles.update_content saved.id rewritten
  pure (record saved { content = rewritten })

-- When the assignment fails, the body keeps its real URLs.
abbrev pub linked : Article → Result Assigned → M Article
linked saved (err e) = pure saved
linked saved (ok assigned) = with_links saved assigned.content assigned.links

module _ (lower : Char → Char) (parse : String → Option Nodes) (render : Nodes → Option String)
    (client_url : String) where
  -- The body of the transaction of persist.
  unfoldable pub store_article :
      DiscoveredArticle → String → List String → Option String → M Article
  store_article article content keywords language = do
    created ←
        Articles.create lower article.title content article.url_original article.source_id keywords
          language
    assigned ← attempt (assign parse render created.content client_url)
    saved ← linked created assigned
    OutboundLinks.retarget saved.url_original (internal_href saved.id)
    pure saved

  unfoldable pub persist : DiscoveredArticle → String → List String → Option String → M Article
  persist article content keywords language =
      with_transaction (store_article article content keywords language)
