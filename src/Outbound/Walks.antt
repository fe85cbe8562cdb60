-- ===== src/Outbound/Walks.antt =====
-- What the rewriting of anchors does to a tree: a second rewriting that takes back the first
-- restores it, and one that replaces nothing leaves it.
use news_feed_backend.Prelude.{
  String, str_eq, ◌≡◌, refl, ap, true, false, Option, none, some, List, [], ◌∷◌, Bool-cases, inl,
  inr, arith,
}
use news_feed_backend.Outbound.Anchors.{
  Attr, Node, Nodes, element, other, no_nodes, node, replaced, rewrite_attrs, rewrite_node,
  rewrite_nodes, attrs_hit, node_hit, nodes_hit, is_replaced,
}

-- Every href of an anchor has the property.
module _ (P : String → Type 0) where
  unfoldable pub AllAttrs : List Attr → Type 0
  AllAttrs [] = Unit
  AllAttrs (a ∷ rest) = (str_eq a.key "href" ≡ true → P a.val) × AllAttrs rest

  unfoldable mutual
    unfolding AllAttrs

    pub AllNode : Node → Type 0
    AllNode (element tag attrs children) =
        (str_eq tag "a" ≡ true → AllAttrs attrs) × AllHrefs children
    AllNode (other text children) = AllHrefs children

    pub AllHrefs : Nodes → Type 0
    AllHrefs no_nodes = Unit
    AllHrefs (node n ns) = AllNode n × AllHrefs ns

module _ (P Q : String → Type 0) (into : (v : String) → P v → Q v) where
  attrs_into : (as_read : List Attr) → AllAttrs P as_read → AllAttrs Q as_read
  unfolding AllAttrs
  attrs_into [] h = tt
  attrs_into (a ∷ rest) (h, k) = ((λ hit. into a.val (h hit)), attrs_into rest k)

  mutual
    unfolding AllNode

    node_into : (n : Node) → AllNode P n → AllNode Q n
    node_into (element tag attrs children) (h, k) =
        ((λ hit. attrs_into attrs (h hit)), hrefs_into children k)
    node_into (other text children) k = hrefs_into children k

    pub hrefs_into : (ns : Nodes) → AllHrefs P ns → AllHrefs Q ns
    hrefs_into no_nodes h = tt
    hrefs_into (node n ns) (h, k) = (node_into n h, hrefs_into ns k)

module _ (f g : String → Option String) where
  -- `g` takes back what `f` writes in place of the href.
  abbrev pub IsTakenBack : String → Type 0
  IsTakenBack v = replaced (g (replaced (f v) v)) (replaced (f v) v) ≡ v

  attrs_back :
      (as_read : List Attr)
      → AllAttrs IsTakenBack as_read
      → rewrite_attrs g (rewrite_attrs f as_read) ≡ as_read
  unfolding AllAttrs rewrite_attrs
  attrs_back [] h = refl
  attrs_back (a ∷ rest) (h, k) = elim (Bool-cases (str_eq a.key "href")) [
    | inl hit ↦ rw (hit, hit, h hit, attrs_back rest k) refl
    | inr miss ↦ rw (miss, miss, attrs_back rest k) refl
  ]

  mutual
    unfolding AllNode rewrite_node

    node_back : (n : Node) → AllNode IsTakenBack n → rewrite_node g (rewrite_node f n) ≡ n
    node_back (element tag attrs children) (h, k) = elim (Bool-cases (str_eq tag "a")) [
      | inl hit ↦ rw (hit, attrs_back attrs (h hit), nodes_back children k) refl
      | inr miss ↦ rw (miss, nodes_back children k) refl
    ]
    node_back (other text children) k = ap (other text) (nodes_back children k)

    pub nodes_back :
        (ns : Nodes) → AllHrefs IsTakenBack ns → rewrite_nodes g (rewrite_nodes f ns) ≡ ns
    nodes_back no_nodes h = refl
    nodes_back (node n ns) (h, k) = rw (node_back n h, nodes_back ns k) refl

module _ (g : String → Option String) where
  unreplaced : (o : Option String) (v : String) → is_replaced o ≡ false → replaced o v ≡ v
  unreplaced none v h = refl
  unreplaced (some next) v h = absurd (ground arith)

  attrs_unhit :
      (as_read : List Attr) → attrs_hit g as_read ≡ false → rewrite_attrs g as_read ≡ as_read
  unfolding attrs_hit rewrite_attrs
  attrs_unhit [] h = refl
  attrs_unhit (a ∷ rest) h = elim (Bool-cases (str_eq a.key "href")) [
    | inl hit ↦
        rw (hit, unreplaced (g a.val) a.val (ground (arith, hit)), attrs_unhit rest (ground arith))
          refl
    | inr miss ↦ rw (miss, attrs_unhit rest (ground arith)) refl
  ]

  mutual
    unfolding node_hit rewrite_node

    node_unhit : (n : Node) → node_hit g n ≡ false → rewrite_node g n ≡ n
    node_unhit (element tag attrs children) h = elim (Bool-cases (str_eq tag "a")) [
      | inl hit ↦
          rw (hit, attrs_unhit attrs (ground arith), nodes_unhit children (ground arith)) refl
      | inr miss ↦ rw (miss, nodes_unhit children (ground arith)) refl
    ]
    node_unhit (other text children) h = ap (other text) (nodes_unhit children h)

    pub nodes_unhit : (ns : Nodes) → nodes_hit g ns ≡ false → rewrite_nodes g ns ≡ ns
    nodes_unhit no_nodes h = refl
    nodes_unhit (node n ns) h = rw (node_unhit n (ground arith), nodes_unhit ns (ground arith)) refl
