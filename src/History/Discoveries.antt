-- ===== src/History/Discoveries.antt =====
-- The discovery keeps what the writing steps keep.
use news_feed_backend.Prelude.{String, Bool, true, false, Option, none, some, List, [], ◌∷◌}
use news_feed_backend.Store.{
  Article, Db, M, Result, ok, err, Keeps, Keeps-Leads, with_transaction-Keeps, >>=-Keeps,
  map_err-Keeps, read-Keeps, pure-Keeps, raise-Keeps, new_uuid-Keeps, attempt-Keeps,
}
use news_feed_backend.Queries.Articles.{find_article_by_url_original}
use news_feed_backend.Controllers.Articles
use news_feed_backend.Outbound.Anchors.{Nodes, collect_distinct_hrefs}
use news_feed_backend.Outbound.Bodies
use news_feed_backend.Outbound.Bodies.{Link, Assignment, Assigned, assign_ids, assign}
use news_feed_backend.Discovery.Lookup.{
  Mapping, is_article_not_found, false_if, exists_of, look_up, already_exists, rest_or, entry_of,
  resolve_hrefs, resolve_internal_urls,
}
use news_feed_backend.Discovery.UrlTreatment
use news_feed_backend.Discovery.UrlTreatment.{treat, collect_hrefs}

-- What only reads, keeps everything.
module _ (I : Db → Type 0) where
  url_looked_up : (url : String) → Keeps I (Articles.find_by_url_original url)
  unfolding Articles.find_by_url_original find_article_by_url_original
  url_looked_up url = map_err-Keeps I _ (read-Keeps I _)

  existence_told : (r : Result Article) → Keeps I (exists_of r)
  existence_told (ok a) = pure-Keeps I true
  existence_told (err e) = go (is_article_not_found e)
    where
      go : (b : Bool) → Keeps I (false_if b e)
      go true = pure-Keeps I false
      go false = raise-Keeps I e

  pub known : (url : String) → Keeps I (already_exists url)
  unfolding already_exists look_up
  known url =
      with_transaction-Keeps I
        (Keeps-Leads I (>>=-Keeps I (attempt-Keeps I (url_looked_up url)) existence_told))

  entry_made :
      (client_url href : String) (r : Result Article) (rest : M (List Mapping))
      → Keeps I rest
      → Keeps I (entry_of client_url href r rest)
  entry_made client_url href (ok a) rest k = >>=-Keeps I k λ entries. pure-Keeps I _
  entry_made client_url href (err e) rest k = go (is_article_not_found e)
    where
      go : (b : Bool) → Keeps I (rest_or b e rest)
      go true = k
      go false = raise-Keeps I e

  hrefs_resolved :
      (client_url : String) (hrefs : List String) → Keeps I (resolve_hrefs client_url hrefs)
  unfolding resolve_hrefs
  hrefs_resolved client_url [] = pure-Keeps I []
  hrefs_resolved client_url (href ∷ hrefs) =
      >>=-Keeps I (attempt-Keeps I (url_looked_up href))
        λ r. entry_made client_url href r _ (hrefs_resolved client_url hrefs)

  ids_assigned : (client_url : String) (hrefs : List String) → Keeps I (assign_ids client_url hrefs)
  unfolding assign_ids
  ids_assigned client_url [] = pure-Keeps I []
  ids_assigned client_url (href ∷ hrefs) =
      >>=-Keeps I (new_uuid-Keeps I)
        λ id. >>=-Keeps I (ids_assigned client_url hrefs) λ rest. pure-Keeps I _

module _ (I : Db → Type 0) (parse : String → Option Nodes) (render : Nodes → Option String) where
  body_rendered :
      (as_made : List Assignment) (out : Option String)
      → Keeps I (Bodies.rendered parse render as_made out)
  body_rendered as_made none = raise-Keeps I _
  body_rendered as_made (some out) = pure-Keeps I _

  pub links_assigned :
      (content client_url : String) → Keeps I (assign parse render content client_url)
  unfolding assign
  links_assigned content client_url = of_nodes (parse content)
    where
      of_hrefs :
          (nodes : Nodes) (hrefs : List String)
          → Keeps I (Bodies.assign_hrefs parse render content client_url nodes hrefs)
      of_hrefs nodes [] = pure-Keeps I _
      of_hrefs nodes (href ∷ hrefs) =
          >>=-Keeps I (ids_assigned I client_url (href ∷ hrefs)) λ made. body_rendered made _

      of_nodes :
          (o : Option Nodes) → Keeps I (Bodies.assign_nodes parse render content client_url o)
      of_nodes none = raise-Keeps I _
      of_nodes (some nodes) = of_hrefs nodes (collect_distinct_hrefs nodes)

  pub urls_treated :
      (client_url content : String)
      → Keeps I (treat parse render (resolve_internal_urls client_url) content)
  unfolding treat resolve_internal_urls
  urls_treated client_url content = of_nodes (parse content)
    where
      written :
          (o : Option String)
          → Keeps I (UrlTreatment.rendered parse render (resolve_internal_urls client_url) o)
      written none = raise-Keeps I _
      written (some out) = pure-Keeps I out

      with_mapping :
          (nodes : Nodes) (mapping : List Mapping)
          → Keeps I (
              UrlTreatment.rewritten parse render
                (resolve_internal_urls client_url)
                content
                nodes
                mapping)
      with_mapping nodes [] = pure-Keeps I content
      with_mapping nodes (m ∷ mapping) = written _

      of_hrefs :
          (nodes : Nodes) (hrefs : List String)
          → Keeps I (
              UrlTreatment.treat_hrefs parse render
                (resolve_internal_urls client_url)
                content
                nodes
                hrefs)
      of_hrefs nodes [] = pure-Keeps I content
      of_hrefs nodes (href ∷ hrefs) =
          >>=-Keeps I
            (with_transaction-Keeps I (Keeps-Leads I (hrefs_resolved I client_url (href ∷ hrefs))))
            λ mapping. with_mapping nodes mapping

      of_nodes :
          (o : Option Nodes)
          → Keeps I
              (UrlTreatment.treat_nodes parse render (resolve_internal_urls client_url) content o)
      of_nodes none = raise-Keeps I _
      of_nodes (some nodes) = of_hrefs nodes (collect_hrefs nodes)
