-- ===== src/Outbound/ReadBack.antt =====
-- Assign and Resolve together, over the tree of a body.
use news_feed_backend.Prelude.{
  ◌≤◌, map, length, String, str_eq, str_eq_iff, ◌≡◌, ◌∙◌, refl, sym, ap, subst, true, false, Option,
  none, some, some-injective, List, [], ◌∷◌, All, exists, Bool-cases, inl, inr, ◌⊎◌, if◌then◌else◌,
  arith,
}
use news_feed_backend.Store.{
  World, ok, new_uuid, Leads, Keeps-Leads, >>=-Leads, pure-Leads, raise-Leads, >>=-succeeds,
  new_uuid-Keeps,
}
use news_feed_backend.Outbound.Hrefs.{to_stored, has_token}
use news_feed_backend.Outbound.Anchors.{
  Nodes, replaced, rewrite_nodes, nodes_hit, collect_distinct_hrefs,
}
use news_feed_backend.Outbound.Bodies
use news_feed_backend.Outbound.Bodies.{
  Link, Assigned, assign, resolve, Assignment, assign_ids, id_by_href, links_of, stored_by_id,
  expanded, href_by_id,
}
use news_feed_backend.Outbound.Walks.{AllHrefs, IsTakenBack, nodes_back, nodes_unhit, hrefs_into}
use news_feed_backend.Outbound.RoundTrip.{expand-to_stored}

-- The links have different ids.
abbrev pub HasDistinctIds : List Link → Type 0
HasDistinctIds [] = Unit
HasDistinctIds (l ∷ ls) = (exists (λ (k : Link). str_eq k.id l.id) ls ≡ false) × HasDistinctIds ls

abbrev IsStored : String → Assignment → Type 0
IsStored client_url a = a.link.href ≡ to_stored a.href client_url

assign_ids-Leads :
    (client_url : String) (hrefs : List String)
    → Leads
        (λ db. Unit {0})
        (λ made db. All (IsStored client_url) made)
        (assign_ids client_url hrefs)
unfolding assign_ids
assign_ids-Leads client_url [] = pure-Leads _ _ [] (λ db h. tt)
assign_ids-Leads client_url (href ∷ hrefs) =
    >>=-Leads _ (λ id db. Unit {0}) _ (Keeps-Leads _ (new_uuid-Keeps _))
      λ id.
        >>=-Leads _ (λ made db. All (IsStored client_url) made) _
          (assign_ids-Leads client_url hrefs) λ made. pure-Leads _ _ _ (λ db h. (refl, h))

id_listed :
    (made : List Assignment) (v id : String)
    → id_by_href made v ≡ some id
    → exists (λ (k : Link). str_eq k.id id) (links_of made) ≡ true
unfolding id_by_href exists
id_listed [] v id e = absurd (ground arith)
id_listed (a ∷ made) v id e = elim (Bool-cases (str_eq a.href v)) [
  | inl hit ↦
      let same : str_eq a.link.id id ≡ true =
        (str_eq_iff a.link.id id).1 (some-injective a.link.id id (rw hit at e)) in
      ground (arith, same)
  | inr miss ↦ ground (arith, id_listed made v id (rw miss at e))
]

module _ (client_url : String) where
  -- What is assigned to an href is stored under its id.
  found_again :
      (made : List Assignment) (v id : String)
      → HasDistinctIds (links_of made)
      → All (IsStored client_url) made
      → id_by_href made v ≡ some id
      → stored_by_id (links_of made) id ≡ some (to_stored v client_url)
  unfolding id_by_href stored_by_id
  found_again [] v id d k e = absurd (ground arith)
  found_again (a ∷ made) v id (d, ds) (k, ks) e = elim (Bool-cases (str_eq a.href v)) [
    | inl hit ↦
        let same : str_eq a.link.id id ≡ true =
          (str_eq_iff a.link.id id).1 (some-injective a.link.id id (rw hit at e)) in
        rw same (ap some (k ∙ ap (λ h. to_stored h client_url) ((str_eq_iff a.href v).0 hit)))
    | inr miss ↦ elim (Bool-cases (str_eq a.link.id id)) [
      | inl same ↦
          let listed : exists (λ (k : Link). str_eq k.id a.link.id) (links_of made) ≡ true =
            rw ((str_eq_iff a.link.id id).0 same) (id_listed made v id (rw miss at e)) in
          absurd (ground (arith, listed, d))
      | inr apart ↦ rw apart (found_again made v id ds ks (rw miss at e))
    ]
  ]

  -- An href of the body: not the token form, and not an id of the links.
  abbrev pub IsPlain : List Link → String → Type 0
  IsPlain links v = (has_token v ≡ false) × (stored_by_id links v ≡ none)

  taken_back :
      (made : List Assignment) (v : String)
      → HasDistinctIds (links_of made)
      → All (IsStored client_url) made
      → IsPlain (links_of made) v
      → IsTakenBack (id_by_href made) (href_by_id (links_of made) client_url) v
  unfolding href_by_id
  taken_back made v d k (plain, apart) = go (id_by_href made v) refl
    where
      go :
          (o : Option String)
          → id_by_href made v ≡ o
          → replaced
              (expanded client_url (stored_by_id (links_of made) (replaced o v)))
              (replaced o v)
            ≡ v
      go none e = rw apart refl
      go (some id) e = rw (found_again made v id d k e) (expand-to_stored v client_url plain)

resolve-nothing :
    (parse : String → Option Nodes) (render : Nodes → Option String) (content client_url : String)
    → resolve parse render content [] client_url ≡ content
unfolding resolve
resolve-nothing parse render content client_url = refl

module _ (parse : String → Option Nodes) (render : Nodes → Option String)
    (client_url content : String) (nodes : Nodes) where
  -- What the assignment has made, when it has rewritten the body.
  record IsRewritten (assigned : Assigned) : Type 0 where
    made : List Assignment
    stored : All (IsStored client_url) made
    links : assigned.links ≡ links_of made
    written : render (rewrite_nodes (id_by_href made) nodes) ≡ some assigned.content
    some_links : Bodies.no_links parse render (links_of made) ≡ false

  abbrev IsMade : List Assignment → Type 0
  IsMade made =
      All (IsStored client_url) made × (Bodies.no_links parse render (links_of made) ≡ false)

  all_made :
      (href : String) (hrefs : List String)
      → Leads (λ db. Unit {0}) (λ made db. IsMade made) (assign_ids client_url (href ∷ hrefs))
  unfolding assign_ids
  all_made href hrefs =
      >>=-Leads _ (λ id db. Unit {0}) _ (Keeps-Leads _ (new_uuid-Keeps _))
        λ id.
          >>=-Leads _ (λ made db. All (IsStored client_url) made) _
            (assign_ids-Leads client_url hrefs) λ made. pure-Leads _ _ _ (λ db h. ((refl, h), refl))

  abbrev IsAsAssigned : Assigned → Type 0
  IsAsAssigned assigned =
      (assigned ≡ record { content = content; links = [] }) ⊎ IsRewritten assigned

  assign-Leads :
      parse content ≡ some nodes
      → Leads
          (λ db. Unit {0})
          (λ assigned db. IsAsAssigned assigned)
          (assign parse render content client_url)
  unfolding assign
  assign-Leads parsed = rw parsed (go (collect_distinct_hrefs nodes))
    where
      out_of :
          (made : List Assignment) (o : Option String)
          → render (rewrite_nodes (id_by_href made) nodes) ≡ o
          → Leads
              (λ db. IsMade made)
              (λ assigned db. IsAsAssigned assigned)
              (Bodies.rendered parse render made o)
      out_of made none e = raise-Leads _ _ _
      out_of made (some out) e = pure-Leads _ _ _ (λ db h.
          inr (record { made = made; stored = h.0; links = refl; written = e; some_links = h.1 }))

      go :
          (hrefs : List String)
          → Leads
              (λ db. Unit {0})
              (λ assigned db. IsAsAssigned assigned)
              (Bodies.assign_hrefs parse render content client_url nodes hrefs)
      go [] = pure-Leads _ _ _ (λ db h. inl refl)
      go (href ∷ hrefs) =
          >>=-Leads _ (λ made db. IsMade made) _ (all_made href hrefs) λ made. out_of made _ refl

  served :
      (out : String) (made : List Assignment) (s : String)
      → render nodes ≡ some out
      → render (rewrite_nodes (id_by_href made) nodes) ≡ some s
      → parse s ≡ some (rewrite_nodes (id_by_href made) nodes)
      → AllHrefs (IsTakenBack (id_by_href made) (href_by_id (links_of made) client_url)) nodes
      → Bodies.no_links parse render (links_of made) ≡ false
      → resolve parse render s (links_of made) client_url ≡ out
  unfolding resolve
  served out made s written given parsed taken some_links =
      let f = id_by_href made in
      let g = href_by_id (links_of made) client_url in
      let back : rewrite_nodes g (rewrite_nodes f nodes) ≡ nodes = nodes_back f g nodes taken in
      elim (Bool-cases (nodes_hit g (rewrite_nodes f nodes))) [
        | inl hit ↦ rw (some_links, parsed, hit, back, written) refl
        | inr miss ↦
            let kept : rewrite_nodes f nodes ≡ nodes =
              sym (nodes_unhit g (rewrite_nodes f nodes) miss) ∙ back in
            rw (some_links, parsed, miss)
              (some-injective s out (sym given ∙ ap render kept ∙ written))
      ]

  -- A body whose links have been assigned is served as it was parsed and rendered, with every href
  -- as it was; without an href it is served as it is. This needs that the ids of the links are
  -- different and no hrefs of the body, that no href has the token, and that the library parses
  -- the body that the assignment gives back to the tree that it was rendered from.
  pub resolve-assign :
      (out : String) (w : World) (assigned : Assigned)
      → parse content ≡ some nodes
      → render nodes ≡ some out
      → ((f : String → Option String)
          → render (rewrite_nodes f nodes) ≡ some assigned.content
          → parse assigned.content ≡ some (rewrite_nodes f nodes))
      → (assign parse render content client_url w).0 ≡ ok assigned
      → HasDistinctIds assigned.links
      → AllHrefs (IsPlain client_url assigned.links) nodes
      → resolve parse render assigned.content assigned.links client_url
        ≡ (if Bodies.no_links parse render assigned.links then content else out)
  resolve-assign out w assigned parsed written inverse done distinct plain =
      go ((assign-Leads parsed).at w tt assigned done)
    where
      go :
          IsAsAssigned assigned
          → resolve parse render assigned.content assigned.links client_url
            ≡ (if Bodies.no_links parse render assigned.links then content else out)
      go (inl same) = rw same (resolve-nothing parse render content client_url)
      go (inr r) =
          let apart = subst HasDistinctIds r.links distinct in
          let given : AllHrefs (IsPlain client_url (links_of r.made)) nodes =
            subst (λ ls. AllHrefs (IsPlain client_url ls) nodes) r.links plain in
          rw (r.links, r.some_links)
            (served out r.made assigned.content written r.written (inverse _ r.written)
              (hrefs_into _ _ (λ v h. taken_back client_url r.made v apart r.stored h) nodes given)
              r.some_links)

module _ (client_url : String) where
  ids_given :
      (hrefs ids : List String) (w : World)
      → w.uuids ≡ map some ids
      → length hrefs ≤ length ids
      → (made : List Assignment) × ((assign_ids client_url hrefs w).0 ≡ ok made)
  unfolding assign_ids new_uuid
  ids_given [] ids w e h = ([], refl)
  ids_given (href ∷ hrefs) [] w e h = absurd (ground arith)
  ids_given (href ∷ hrefs) (id ∷ ids) w e h =
      let r = ids_given hrefs ids (record w { uuids = map some ids }) refl (ground arith) in
      (
        record { href = href; link = record { id = id; href = to_stored href client_url } } ∷ r.0,
        rw (e, r.1) refl,
      )

module _ (parse : String → Option Nodes) (render : Nodes → Option String)
    (client_url content : String) where
  -- The assignment succeeds, when the library parses the body and renders the tree that it has
  -- parsed, whatever its hrefs are replaced with, and there is an id for each href.
  pub assign-succeeds :
      (nodes : Nodes) (ids : List String) (w : World)
      → parse content ≡ some nodes
      → ((f : String → Option String) → (s : String) × (render (rewrite_nodes f nodes) ≡ some s))
      → w.uuids ≡ map some ids
      → length (collect_distinct_hrefs nodes) ≤ length ids
      → (assigned : Assigned) × ((assign parse render content client_url w).0 ≡ ok assigned)
  unfolding assign
  assign-succeeds nodes ids w parsed renders e h = rw parsed (go (collect_distinct_hrefs nodes) h)
    where
      go :
          (hrefs : List String)
          → length hrefs ≤ length ids
          → (assigned : Assigned) × ((Bodies.assign_hrefs parse render content client_url nodes
                hrefs w).0
              ≡ ok assigned)
      go [] h = (record { content = content; links = [] }, refl)
      go (href ∷ hrefs) h =
          let r = ids_given client_url (href ∷ hrefs) ids w e h in
          let out = renders (id_by_href r.0) in
          (
            record { content = out.0; links = links_of r.0 },
            >>=-succeeds (assign_ids client_url (href ∷ hrefs))
                (λ made.
                  Bodies.rendered parse render made
                    (render (rewrite_nodes (id_by_href made) nodes)))
                w r.0 (record { content = out.0; links = links_of r.0 }) r.1 (λ v. rw out.1 refl),
          )
