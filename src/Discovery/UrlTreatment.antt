-- ===== src/Discovery/UrlTreatment.antt =====
-- services/urltreatment/urltreatment.go. Its walks over the anchors are those of
-- services/outboundlinks, written once more. `parse` and `render` are those of the HTML library.
use news_feed_backend.Prelude.{String, str_eq, Option, none, some, List, [], ◌∷◌, if◌then◌else◌}
use news_feed_backend.Store.{M, pure, raise, ◌>>=◌, parse_failure}
use news_feed_backend.Outbound.Anchors.{Nodes, collect_distinct_hrefs, rewrite_nodes}
use news_feed_backend.Discovery.Lookup.{Mapping}

unfoldable pub collect_hrefs : Nodes → List String
collect_hrefs nodes = collect_distinct_hrefs nodes

unfoldable pub internal_of : List Mapping → String → Option String
internal_of [] href = none
internal_of (m ∷ mapping) href =
    if str_eq m.href href then some m.internal else internal_of mapping href

unfoldable pub rewrite_anchors : List Mapping → Nodes → Nodes
unfolding internal_of
rewrite_anchors mapping nodes = rewrite_nodes (internal_of mapping) nodes

module _ (parse : String → Option Nodes) (render : Nodes → Option String)
    (resolve : List String → M (List Mapping)) where
  abbrev pub rendered : Option String → M String
  rendered none = raise parse_failure
  rendered (some out) = pure out

  abbrev pub rewritten : String → Nodes → List Mapping → M String
  rewritten content nodes [] = pure content
  rewritten content nodes (m ∷ mapping) = rendered (render (rewrite_anchors (m ∷ mapping) nodes))

  abbrev pub treat_hrefs : String → Nodes → List String → M String
  treat_hrefs content nodes [] = pure content
  treat_hrefs content nodes (href ∷ hrefs) = do
    mapping ← resolve (href ∷ hrefs)
    rewritten content nodes mapping

  abbrev pub treat_nodes : String → Option Nodes → M String
  treat_nodes content none = raise parse_failure
  treat_nodes content (some nodes) = treat_hrefs content nodes (collect_hrefs nodes)

  -- Treat. A failure is an error of the action; the caller keeps the content that it has.
  unfoldable pub treat : String → M String
  unfolding collect_hrefs rewrite_anchors
  treat content = treat_nodes content (parse content)
