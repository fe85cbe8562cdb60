-- ===== src/Outbound/Anchors.antt =====
-- The tree of a body, and the walks over its anchors: collectDistinctHrefs, rewriteAnchors,
-- walkAnchors and getAttr of services/outboundlinks/outboundlinks.go. A node is what the walks read
-- of html.Node: an element with its tag, its attributes and its children, or any other node.
use news_feed_backend.Prelude.{
  String, str_eq, Bool, true, false, ◌||◌, Option, none, some, List, [], ◌∷◌, ◌++◌, if◌then◌else◌,
  exists,
}

pub record Attr : Type 0 where
  pub key : String
  pub val : String

mutual
  pub data Node : Type 0 where
    element : String → List Attr → Nodes → Node
    other : String → Nodes → Node

  pub data Nodes : Type 0 where
    no_nodes : Nodes
    node : Node → Nodes → Nodes

-- getAttr: the first attribute of the name.
unfoldable pub get_attr : List Attr → String → Option String
get_attr [] key = none
get_attr (a ∷ rest) key = if str_eq a.key key then some a.val else get_attr rest key

abbrev pub is_in : String → List String → Bool
is_in s seen = exists (λ (x : String). str_eq x s) seen

-- The function that collectDistinctHrefs hands to walkAnchors; `seen` holds what `hrefs` holds.
unfoldable pub add_href : List String → Option String → List String
add_href hrefs none = hrefs
add_href hrefs (some href) =
    if str_eq href "" then hrefs else if is_in href hrefs then hrefs else hrefs ++ href ∷ []

-- What an element adds: only those with the tag `a` are anchors.
unfoldable pub add_anchor : String → List Attr → List String → List String
unfolding add_href get_attr
add_anchor tag attrs hrefs =
    if str_eq tag "a" then add_href hrefs (get_attr attrs "href") else hrefs

unfoldable mutual
  unfolding add_anchor

  pub collect_node : Node → List String → List String
  collect_node (element tag attrs children) hrefs =
      collect_nodes children (add_anchor tag attrs hrefs)
  collect_node (other text children) hrefs = collect_nodes children hrefs

  pub collect_nodes : Nodes → List String → List String
  collect_nodes no_nodes hrefs = hrefs
  collect_nodes (node n ns) hrefs = collect_nodes ns (collect_node n hrefs)

unfoldable pub collect_distinct_hrefs : Nodes → List String
unfolding collect_node
collect_distinct_hrefs nodes = collect_nodes nodes []

abbrev pub replaced : Option String → String → String
replaced none val = val
replaced (some next) val = next

-- The loop over the attributes of an anchor: every one named href is replaced.
unfoldable pub rewrite_attrs : (String → Option String) → List Attr → List Attr
rewrite_attrs replace [] = []
rewrite_attrs replace (a ∷ rest) =
    (if str_eq a.key "href"
      then record { key = a.key; val = replaced (replace a.val) a.val }
      else a)
    ∷ rewrite_attrs replace rest

unfoldable mutual
  unfolding rewrite_attrs

  pub rewrite_node : (String → Option String) → Node → Node
  rewrite_node replace (element tag attrs children) =
      element tag (if str_eq tag "a" then rewrite_attrs replace attrs else attrs)
        (rewrite_nodes replace children)
  rewrite_node replace (other text children) = other text (rewrite_nodes replace children)

  pub rewrite_nodes : (String → Option String) → Nodes → Nodes
  rewrite_nodes replace no_nodes = no_nodes
  rewrite_nodes replace (node n ns) = node (rewrite_node replace n) (rewrite_nodes replace ns)

abbrev pub is_replaced : Option String → Bool
is_replaced none = false
is_replaced (some next) = true

-- Whether the rewriting replaces anything: the flag `changed` of Resolve.
unfoldable pub attrs_hit : (String → Option String) → List Attr → Bool
attrs_hit replace [] = false
attrs_hit replace (a ∷ rest) =
    (if str_eq a.key "href" then is_replaced (replace a.val) else false) || attrs_hit replace rest

unfoldable mutual
  unfolding attrs_hit

  pub node_hit : (String → Option String) → Node → Bool
  node_hit replace (element tag attrs children) =
      (if str_eq tag "a" then attrs_hit replace attrs else false) || nodes_hit replace children
  node_hit replace (other text children) = nodes_hit replace children

  pub nodes_hit : (String → Option String) → Nodes → Bool
  nodes_hit replace no_nodes = false
  nodes_hit replace (node n ns) = node_hit replace n || nodes_hit replace ns
