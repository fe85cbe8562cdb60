-- ===== src/Outbound/Bodies.antt =====
-- Assign and Resolve of services/outboundlinks/outboundlinks.go. `parse` is html.ParseFragment and
-- `render` is html.Render; both may fail.
use news_feed_backend.Prelude.{
  String, str_eq, Bool, true, false, Option, none, some, List, [], ◌∷◌, if◌then◌else◌,
}
use news_feed_backend.Store.{M, pure, raise, ◌>>=◌, new_uuid, parse_failure}
use news_feed_backend.Outbound.Hrefs.{to_stored, expand}
use news_feed_backend.Outbound.Anchors.{Nodes, collect_distinct_hrefs, rewrite_nodes, nodes_hit}

pub record Link : Type 0 where
  pub id : String
  pub href : String

-- An entry of idByHref, and the link that is to be stored.
pub record Assignment : Type 0 where
  pub href : String
  pub link : Link

-- One id for each href; the first failure ends the loop.
unfoldable pub assign_ids : String → List String → M (List Assignment)
assign_ids client_url [] = pure []
assign_ids client_url (href ∷ hrefs) = do
  id ← new_uuid
  rest ← assign_ids client_url hrefs
  pure (record { href = href; link = record { id = id; href = to_stored href client_url } } ∷ rest)

unfoldable pub id_by_href : List Assignment → String → Option String
id_by_href [] href = none
id_by_href (a ∷ rest) href = if str_eq a.href href then some a.link.id else id_by_href rest href

abbrev pub links_of : List Assignment → List Link
links_of [] = []
links_of (a ∷ rest) = a.link ∷ links_of rest

-- byID: the id, and what is stored of the href.
unfoldable pub stored_by_id : List Link → String → Option String
stored_by_id [] id = none
stored_by_id (l ∷ ls) id = if str_eq l.id id then some l.href else stored_by_id ls id

abbrev pub expanded : String → Option String → Option String
expanded client_url none = none
expanded client_url (some stored) = some (expand stored client_url)

-- The ids of links are unique, so that the first entry of an id is the only one.
-- What the anchors of a body are replaced by when it is served.
unfoldable pub href_by_id : List Link → String → String → Option String
unfolding stored_by_id
href_by_id links client_url id = expanded client_url (stored_by_id links id)

pub record Assigned : Type 0 where
  pub content : String
  pub links : List Link

module _ (parse : String → Option Nodes) (render : Nodes → Option String) where
  abbrev pub rendered : List Assignment → Option String → M Assigned
  rendered assignments none = raise parse_failure
  rendered assignments (some out) = pure (record { content = out; links = links_of assignments })

  abbrev pub assign_hrefs : String → String → Nodes → List String → M Assigned
  assign_hrefs content client_url nodes [] = pure (record { content = content; links = [] })
  assign_hrefs content client_url nodes (href ∷ hrefs) = do
    assignments ← assign_ids client_url (href ∷ hrefs)
    rendered assignments (render (rewrite_nodes (id_by_href assignments) nodes))

  abbrev pub assign_nodes : String → String → Option Nodes → M Assigned
  assign_nodes content client_url none = raise parse_failure
  assign_nodes content client_url (some nodes) =
      assign_hrefs content client_url nodes (collect_distinct_hrefs nodes)

  -- Assign. A failure is an error of the action; the caller keeps the body that it has.
  unfoldable pub assign : String → String → M Assigned
  assign content client_url = assign_nodes content client_url (parse content)

  abbrev pub content_or : String → Option String → String
  content_or content none = content
  content_or content (some out) = out

  abbrev pub resolve_nodes : String → List Link → String → Option Nodes → String
  resolve_nodes content links client_url none = content
  resolve_nodes content links client_url (some nodes) =
      if nodes_hit (href_by_id links client_url) nodes
      then content_or content (render (rewrite_nodes (href_by_id links client_url) nodes))
      else content

  abbrev pub no_links : List Link → Bool
  no_links [] = true
  no_links (l ∷ ls) = false

  -- Resolve
  unfoldable pub resolve : String → List Link → String → String
  resolve content links client_url =
      if no_links links then content else resolve_nodes content links client_url (parse content)
