-- ===== src/Examples/Links.antt =====
-- Links under a client URL, to a host whose name starts like it, and in a body.
use Prim.Native.String.{◌++◌}
use news_feed_backend.Prelude.{
  ◌≡◌, refl, ap, sym, String, Option, some, some-injective, List, [], ◌∷◌, exists, arith,
}
use news_feed_backend.Store.{ok, new_uuid}
use news_feed_backend.Outbound.Hrefs.{to_stored, expand, has_token, strip_prefix, is_url_boundary}
use news_feed_backend.Outbound.Anchors.{
  Attr, Nodes, no_nodes, node, element, other, replaced, get_attr, add_href, add_anchor,
  collect_node, collect_distinct_hrefs, rewrite_attrs, rewrite_nodes,
}
use news_feed_backend.Outbound.Bodies.{
  Assigned, assign, assign_ids, id_by_href, stored_by_id, resolve,
}
use news_feed_backend.Outbound.Walks.{AllAttrs, AllHrefs}
use news_feed_backend.Outbound.ReadBack.{assign-succeeds, resolve-assign}
use news_feed_backend.Examples.Data.{small_world}
use news_feed_backend.Outbound.RoundTrip.{expand-to_stored_moved, expand-to_stored_kept}

expand-to_stored_moved_example :
    expand (to_stored ("https://algo.com" ++ "/x") "https://algo.com") "https://novo.com"
    ≡ "https://novo.com" ++ "/x"
unfolding has_token strip_prefix is_url_boundary
expand-to_stored_moved_example =
    expand-to_stored_moved "https://algo.com" "https://novo.com" "/x" refl refl refl

expand-to_stored_kept_example :
    expand (to_stored ("https://algo.com" ++ ".br/x") "https://algo.com") "https://novo.com"
    ≡ "https://algo.com" ++ ".br/x"
unfolding has_token strip_prefix is_url_boundary
expand-to_stored_kept_example =
    expand-to_stored_kept "https://algo.com" "https://novo.com" ".br/x" refl refl

-- A library whose text of an anchor is its href.
abbrev anchor : String → Nodes
anchor href = node (element "a" (record { key = "href"; val = href } ∷ []) no_nodes) no_nodes

abbrev parse_anchor : String → Option Nodes
parse_anchor href = some (anchor href)

abbrev href_of_attrs : List Attr → String
href_of_attrs [] = ""
href_of_attrs (a ∷ rest) = a.val

abbrev render_anchor : Nodes → Option String
render_anchor no_nodes = some ""
render_anchor (node (other text children) ns) = some text
render_anchor (node (element tag attrs children) ns) = some (href_of_attrs attrs)

anchor_parsed :
    (href : String) (f : String → Option String) (s : String)
    → render_anchor (rewrite_nodes f (anchor href)) ≡ some s
    → parse_anchor s ≡ some (rewrite_nodes f (anchor href))
unfolding rewrite_nodes rewrite_attrs
anchor_parsed href f s e =
    ap (λ t. some (anchor t)) (sym (some-injective (replaced (f href) href) s e))

anchor_renders :
    (href : String) (f : String → Option String)
    → (s : String) × (render_anchor (rewrite_nodes f (anchor href)) ≡ some s)
unfolding rewrite_nodes rewrite_attrs
anchor_renders href f = (replaced (f href) href, refl)

assign-succeeds_example :
    (assigned : Assigned) × ((assign parse_anchor render_anchor "https://paper.example/1"
        "https://algo.com" small_world).0
      ≡ ok assigned)
unfolding collect_distinct_hrefs collect_node add_anchor get_attr add_href exists
assign-succeeds_example =
    assign-succeeds parse_anchor render_anchor "https://algo.com" "https://paper.example/1"
      (anchor "https://paper.example/1") ("n1" ∷ "n2" ∷ "n3" ∷ "n4" ∷ []) small_world refl
      (anchor_renders "https://paper.example/1") refl (ground arith)

resolve-assign_example :
    resolve parse_anchor render_anchor "n1"
      (record { id = "n1"; href = "https://paper.example/1" } ∷ [])
      "https://algo.com"
    ≡ "https://paper.example/1"
unfolding assign assign_ids id_by_href new_uuid collect_distinct_hrefs collect_node add_anchor
    get_attr add_href rewrite_nodes rewrite_attrs exists to_stored strip_prefix AllHrefs AllAttrs
    has_token stored_by_id
resolve-assign_example =
    resolve-assign parse_anchor render_anchor "https://algo.com" "https://paper.example/1"
      (anchor "https://paper.example/1") "https://paper.example/1" small_world
      (record {
        content = "n1";
        links = record { id = "n1"; href = "https://paper.example/1" } ∷ [];
      })
      refl refl (λ f. anchor_parsed "https://paper.example/1" f "n1") refl (refl, tt)
      (((λ hit. ((λ named. (refl, refl)), tt)), tt), tt)
