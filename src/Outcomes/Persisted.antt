-- ===== src/Outcomes/Persisted.antt =====
-- What persist of services/discovery/processor.go brings about.
use Prim.Native.Char.{Char}
use news_feed_backend.Prelude.{
  ℕ, String, str_eq, str_eq_iff, ◌≡◌, ◌∙◌, refl, sym, ap, Bool, true, false, Option, none, some,
  List, [], ◌∷◌, exists, exists-update_where, exists-update_where_all, Bool-cases, inl, inr, arith,
}
use news_feed_backend.Store.{
  Article, Source, Error, World, pure, attempt, ◌>>=◌, ◌>>◌, Db, Result, ok, err, Leads, Keeps,
  Keeps-Leads, with_transaction-Leads, >>=-Leads, pure-Leads, map_err-Leads, query-Leads,
  exec-Leads, >>=-Keeps, pure-Keeps, map_err-Keeps, new_uuid-Keeps, read-Keeps, attempt-Keeps,
  query-Keeps, exec-Keeps,
}
use news_feed_backend.Queries.Articles.{
  CreateArticleParams, clashes, new_article, insert_article, create_article, has_active_url,
  is_active_article, with_content, update_article_content,
}
use news_feed_backend.Queries.OutboundLinks.{
  insert_link, create_article_outbound_link, points_to, repointed,
  retarget_article_outbound_links_by_href,
}
use news_feed_backend.Queries.Sources.{find_source_by_id}
use news_feed_backend.Controllers.Articles
use news_feed_backend.Controllers.OutboundLinks
use news_feed_backend.Outbound.Hrefs.{internal_href, internal_href_prefix, strip_prefix}
use news_feed_backend.Outbound.RoundTrip.{strip_self}
use news_feed_backend.Outbound.Anchors.{Nodes}
use news_feed_backend.Outbound.Bodies.{Link, Assigned, assign}
use news_feed_backend.Discovery.Items.{DiscoveredArticle}
use news_feed_backend.Discovery.Persist.{create_links, with_links, linked, store_article, persist}
use news_feed_backend.History.Discoveries.{links_assigned}

-- An active article has the URL.
abbrev pub HasUrl : String → Db → Type 0
HasUrl url db = exists (has_active_url url) db.articles ≡ true

abbrev pub IsStoredAt : String → Article → Db → Type 0
IsStoredAt url a db = (a.url_original ≡ url) × HasUrl url db

-- An active article has the URL, and no link points to it.
abbrev IsLeft : String → Db → Type 0
IsLeft url db = HasUrl url db × (exists (points_to url) db.article_outbound_links ≡ false)

-- The article is stored, and no link points to its URL.
abbrev pub IsPersisted : String → Article → Db → Type 0
IsPersisted url a db =
    IsStoredAt url a db × (exists (points_to url) db.article_outbound_links ≡ false)

abbrev is_source : String → Source → Bool
is_source id s = str_eq s.id id

module _ (lower : Char → Char) (url : String) where
  inserted :
      (p : CreateArticleParams) (now : ℕ) (db : Db) (a : Article)
      → p.url_original ≡ url
      → (insert_article p now db).0 ≡ ok a
      → IsStoredAt url a (insert_article p now db).1
  unfolding insert_article exists
  inserted p now db a same done = elim (Bool-cases (exists (clashes p) db.articles)) [
    | inl taken ↦ absurd (refused (rw taken at done))
    | inr free ↦ elim (Bool-cases (exists (is_source p.source_id) db.sources)) [
      | inl there ↦
          let made : new_article now p ≡ a = ok_inj (rw (free, there) at done) in
          rw (free, there)
            (
              sym (ap (λ x. x.url_original) made) ∙ same,
              ground (arith, (str_eq_iff p.url_original url).1 same),
            )
      | inr missing ↦ absurd (refused (rw (free, missing) at done))
    ]
  ]
    where
      ok_inj : {x y : Article} → ok x ≡ ok y → x ≡ y
      ok_inj e = cc

      refused : {e : Error} {x : Article} → err e ≡ ok x → ⊥
      refused e = ground arith

  insertion :
      (p : CreateArticleParams)
      → p.url_original ≡ url
      → Leads (λ db. Unit {0}) (λ a db. IsStoredAt url a db) (create_article p)
  unfolding create_article
  insertion p same = query-Leads _ _ _ (λ now db a h e. inserted p now db a same e)

  created :
      (title content source_id : String) (keywords : List String) (language : Option String)
      → Leads
          (λ db. Unit {0})
          (λ a db. IsStoredAt url a db)
          (Articles.create lower title content url source_id keywords language)
  unfolding Articles.create find_source_by_id
  created title content source_id keywords language =
      >>=-Leads _ (λ x db. Unit {0}) _ (Keeps-Leads _ (map_err-Keeps _ _ (read-Keeps _ _)))
        λ x.
          >>=-Leads _ (λ id db. Unit {0}) _ (Keeps-Leads _ (new_uuid-Keeps _))
            λ id. map_err-Leads _ _ _ (insertion _ refl)

  links_kept :
      (article_id : String) (links : List Link) → Keeps (HasUrl url) (create_links article_id links)
  unfolding create_links OutboundLinks.create create_article_outbound_link insert_link
  links_kept article_id [] = pure-Keeps _ tt
  links_kept article_id (l ∷ links) =
      >>=-Keeps _ (query-Keeps _ _ (λ now db h. ground arith)) λ row. links_kept article_id links

  body_kept : (id content : String) → Keeps (HasUrl url) (Articles.update_content id content)
  unfolding Articles.update_content update_article_content
  body_kept id content = exec-Keeps _ _ (λ now db h.
      exists-update_where (has_active_url url) (is_active_article id) (with_content now content)
        (λ a hit. refl) db.articles
      ∙ h)

  linked_kept :
      (saved : Article) (r : Result Assigned)
      → saved.url_original ≡ url
      → Leads (HasUrl url) (λ a db. IsStoredAt url a db) (linked saved r)
  linked_kept saved (err e) same = pure-Leads _ _ saved (λ db h. (same, h))
  linked_kept saved (ok assigned) same = go assigned.links
    where
      go :
          (links : List Link)
          → Leads
              (HasUrl url)
              (λ a db. IsStoredAt url a db)
              (with_links saved assigned.content links)
      go [] = pure-Leads _ _ saved (λ db h. (same, h))
      go (l ∷ links) =
          >>=-Leads _ (λ x. HasUrl url) _ (Keeps-Leads _ (links_kept saved.id (l ∷ links)))
            λ x.
              >>=-Leads _ (λ x. HasUrl url) _ (Keeps-Leads _ (body_kept saved.id assigned.content))
                λ x. pure-Leads _ _ _ (λ db h. (same, h))

  retargeted :
      (id old : String)
      → strip_prefix internal_href_prefix url ≡ none
      → old ≡ url
      → Leads (HasUrl url) (λ x db. IsLeft url db) (OutboundLinks.retarget old (internal_href id))
  unfolding OutboundLinks.retarget retarget_article_outbound_links_by_href internal_href
  retargeted id old outside same = rw same (
      exec-Leads _ _ _ (λ now db h. (
        h,
        exists-update_where_all (points_to url) (repointed now (internal_href id)) (λ l. apart)
            db.article_outbound_links,
      )))
    where
      apart : str_eq (internal_href id) url ≡ false
      apart = elim (Bool-cases (str_eq (internal_href id) url)) [
        | inl hit ↦
            let stripped : strip_prefix internal_href_prefix url ≡ some id =
              rw ((str_eq_iff (internal_href id) url).0 hit) at
                (strip_self internal_href_prefix id) in
            absurd (ground (arith, stripped, outside))
        | inr miss ↦ miss
      ]

module _ (lower : Char → Char) (parse : String → Option Nodes) (render : Nodes → Option String)
    (client_url : String) (a : DiscoveredArticle) where
  stored :
      (content : String) (keywords : List String) (language : Option String)
      → strip_prefix internal_href_prefix a.url_original ≡ none
      → Leads
          (λ db. Unit {0})
          (λ saved db. IsPersisted a.url_original saved db)
          (store_article lower parse render client_url a content keywords language)
  unfolding store_article
  stored content keywords language outside =
      >>=-Leads _ (λ x db. IsStoredAt a.url_original x db) _
        (created lower a.url_original a.title content a.source_id keywords language) after
    where
      done :
          (saved : Article)
          → Leads
              (IsStoredAt a.url_original saved)
              (λ x db. IsPersisted a.url_original x db)
              (OutboundLinks.retarget saved.url_original (internal_href saved.id) >> pure saved)
      done saved = record {
        at = λ w h.
            (>>=-Leads _ (λ x db. IsLeft a.url_original db)
                (λ x db. IsPersisted a.url_original x db)
                (retargeted lower a.url_original saved.id saved.url_original outside h.0)
                λ x. pure-Leads _ _ saved (λ db k. ((h.0, k.0), k.1))).at
              w h.1;
      }

      with_record :
          (x : Article) (r : Result Assigned)
          → Leads
              (IsStoredAt a.url_original x)
              (λ y db. IsPersisted a.url_original y db)
              (linked x r >>= λ y.
                OutboundLinks.retarget y.url_original (internal_href y.id) >> pure y)
      with_record x r = record {
        at = λ w h.
            (>>=-Leads _ (λ y db. IsStoredAt a.url_original y db) _
                (linked_kept lower a.url_original x r h.0) done).at
              w h.1;
      }

      after :
          (x : Article)
          → Leads
              (IsStoredAt a.url_original x)
              (λ y db. IsPersisted a.url_original y db)
              (attempt (assign parse render x.content client_url) >>= λ r. linked x r >>= λ y.
                OutboundLinks.retarget y.url_original (internal_href y.id) >> pure y)
      after x =
          >>=-Leads _ (λ r db. IsStoredAt a.url_original x db) _
            (Keeps-Leads _ (attempt-Keeps _ (links_assigned _ parse render x.content client_url)))
            (with_record x)

  -- When persist succeeds, whatever statements it meets, an active article has the URL of the
  -- item, so that the next sweep passes it over, and no link of any article points to that URL any
  -- more, provided that the URL does not start with the token form of our own pages.
  pub persist-IsPersisted :
      (content : String) (keywords : List String) (language : Option String) (w : World)
      (saved : Article)
      → strip_prefix internal_href_prefix a.url_original ≡ none
      → (persist lower parse render client_url a content keywords language w).0 ≡ ok saved
      → IsPersisted a.url_original saved
          (persist lower parse render client_url a content keywords language w).1.db
  unfolding persist
  persist-IsPersisted content keywords language w saved outside done =
      (with_transaction-Leads _ _ (stored content keywords language outside)).at w tt saved done
