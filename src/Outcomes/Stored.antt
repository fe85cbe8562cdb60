-- ===== src/Outcomes/Stored.antt =====
-- persist of services/discovery/processor.go, when no statement fails.
use Prim.Native.Char.{Char}
use news_feed_backend.Prelude.{
  ℕ, String, str_eq, str_eq_sym, ◌≡◌, refl, Bool, true, false, Option, some, List, [], ◌∷◌, All,
  exists, exists-here, str_eq_iff, find_first, arith,
}
use news_feed_backend.Store.{
  Article, ArticleOutboundLink, Source, Db, World, Result, ok, err, with_transaction, begun, finish,
  committed, query, read, exec, answered, new_uuid, pure, ◌>>=◌, ◌>>◌,
}
use news_feed_backend.Queries.Articles.{
  CreateArticleParams, clashes, new_article, insert_article, create_article, update_article_content,
}
use news_feed_backend.Queries.OutboundLinks.{
  insert_link, new_link, create_article_outbound_link, retarget_article_outbound_links_by_href,
}
use news_feed_backend.Queries.Sources.{is_active_source, find_source_by_id}
use news_feed_backend.Controllers.Articles
use news_feed_backend.Controllers.OutboundLinks
use news_feed_backend.Controllers.Keywords.{encode_keywords}
use news_feed_backend.Outbound.Hrefs.{internal_href}
use news_feed_backend.Outbound.Anchors.{Nodes}
use news_feed_backend.Outbound.Bodies.{Link, Assigned, assign}
use news_feed_backend.Outbound.ReadBack.{HasDistinctIds}
use news_feed_backend.Discovery.Items.{DiscoveredArticle}
use news_feed_backend.Discovery.Persist.{create_links, with_links, linked, store_article, persist}
use news_feed_backend.Outcomes.Tokens.{calm}

-- No stored link has the id of the link.
abbrev pub IsFree : List ArticleOutboundLink → Link → Type 0
IsFree rows l = exists (λ (r : ArticleOutboundLink). str_eq r.id l.id) rows ≡ false

cons-IsFree :
    (row : ArticleOutboundLink) (rows : List ArticleOutboundLink) (links : List Link)
    → exists (λ (k : Link). str_eq k.id row.id) links ≡ false
    → All (IsFree rows) links
    → All (IsFree (row ∷ rows)) links
unfolding exists
cons-IsFree row rows [] d h = tt
cons-IsFree row rows (k ∷ links) d (free, h) =
    (ground (arith, str_eq_sym k.id row.id), cons-IsFree row rows links (ground arith) h)

module _ (article_id : String) (now : ℕ) (uuids : List (Option String)) where
  links_succeed :
      (links : List Link) (db : Db)
      → HasDistinctIds links
      → All (IsFree db.article_outbound_links) links
      → exists (λ (a : Article). str_eq a.id article_id) db.articles ≡ true
      → (after : Db) × (create_links article_id links (calm db now uuids)
          ≡ (ok tt, calm after now uuids))
  unfolding create_links OutboundLinks.create create_article_outbound_link insert_link query
      answered
  links_succeed [] db d free there = (db, refl)
  links_succeed (l ∷ links) db (d, ds) (f, free) there =
      let next = record db {
        article_outbound_links = new_link now l.id article_id l.href ∷ db.article_outbound_links;
      } in
      let r =
        links_succeed links next ds
          (cons-IsFree (new_link now l.id article_id l.href) db.article_outbound_links links d free)
          there in
      (r.0, rw (f, there) r.1)

abbrev is_source : String → Source → Bool
is_source id s = str_eq s.id id

source_there :
    (id : String) (s : Source) (xs : List Source)
    → find_first (is_active_source id) xs ≡ some s
    → exists (is_source id) xs ≡ true
unfolding find_first exists
source_there id s [] e = absurd (ground arith)
source_there id s (x ∷ xs) e = ground (arith, source_there id s xs)

module _ (lower : Char → Char) (parse : String → Option Nodes) (render : Nodes → Option String)
    (client_url : String) (a : DiscoveredArticle) (content : String) (keywords : List String)
    (language : Option String) (now : ℕ) (id : String) where
  abbrev params : CreateArticleParams
  params = record {
    id = id;
    title = a.title;
    content = content;
    url_original = a.url_original;
    keywords = encode_keywords lower keywords;
    source_id = a.source_id;
    language_original = Articles.null_string language;
  }

  article_succeeds :
      (db : Db) (uuids : List (Option String)) (s : Source)
      → find_first (is_active_source a.source_id) db.sources ≡ some s
      → exists (clashes params) db.articles ≡ false
      → Articles.create lower a.title content a.url_original a.source_id keywords language
          (calm db now (some id ∷ uuids))
        ≡ (
          ok (new_article now params),
          calm (record db { articles = new_article now params ∷ db.articles }) now uuids,
        )
  unfolding Articles.create find_source_by_id create_article insert_article query read answered
      new_uuid
  article_succeeds db uuids s active free =
      rw (active, free, source_there a.source_id s db.sources active) refl

  -- What the transaction ends with.
  abbrev Ends : Db → List (Option String) → Result Article × World → Type 0
  Ends db left r = (saved : Article) × (after : Db) × (r ≡ (ok saved, calm after now left))

  linked_succeed :
      (db : Db) (left : List (Option String)) (body : String) (links : List Link)
      → HasDistinctIds links
      → All (IsFree db.article_outbound_links) links
      → Ends db left (
          (with_links (new_article now params) body links >>= λ y.
          OutboundLinks.retarget y.url_original (internal_href y.id) >> pure y)
            (calm (record db { articles = new_article now params ∷ db.articles }) now left))
  unfolding Articles.update_content update_article_content OutboundLinks.retarget
      retarget_article_outbound_links_by_href query exec answered
  linked_succeed db left body [] distinct unused = (new_article now params, _, refl)
  linked_succeed db left body (l ∷ links) distinct unused =
      let r =
        links_succeed id now left (l ∷ links)
          (record db { articles = new_article now params ∷ db.articles }) distinct unused
          (exists-here _ (new_article now params) db.articles ((str_eq_iff id id).1 refl)) in
      rw r.1 (finished r.0)
    where
      finished :
          (after : Db)
          → Ends db left (
              (Articles.update_content id body
                  >> pure (record (new_article now params) { content = body })
                  >>= λ y. OutboundLinks.retarget y.url_original (internal_href y.id) >> pure y)
                (calm after now left))
      finished after = (record (new_article now params) { content = body }, _, refl)

  -- What is assigned can be stored.
  abbrev pub AreStorable : Db → Result Assigned → Type 0
  AreStorable db (err e) = Unit
  AreStorable db (ok assigned) =
      HasDistinctIds assigned.links × All (IsFree db.article_outbound_links) assigned.links

  outcome_succeeds :
      (db : Db) (left : List (Option String)) (outcome : Result Assigned)
      → AreStorable db outcome
      → Ends db left (
          (linked (new_article now params) outcome >>= λ y.
          OutboundLinks.retarget y.url_original (internal_href y.id) >> pure y)
            (calm (record db { articles = new_article now params ∷ db.articles }) now left))
  unfolding OutboundLinks.retarget retarget_article_outbound_links_by_href query exec answered
  outcome_succeeds db left (err e) h = (new_article now params, _, refl)
  outcome_succeeds db left (ok assigned) h =
      linked_succeed db left assigned.content assigned.links h.0 h.1

  -- When no statement fails, persist succeeds for an article of an active source whose id and URL
  -- are free, whether the assignment of the links fails or not, if the links that it assigns have
  -- different ids that no stored link has.
  pub persist-succeeds :
      (db : Db) (uuids left : List (Option String)) (s : Source) (outcome : Result Assigned)
      → find_first (is_active_source a.source_id) db.sources ≡ some s
      → exists (clashes params) db.articles ≡ false
      → ((later : Db)
          → assign parse render content client_url (calm later now uuids)
            ≡ (outcome, calm later now left))
      → AreStorable db outcome
      → (saved : Article) × ((persist lower parse render client_url a content keywords language
            (calm db now (some id ∷ uuids))).0
          ≡ ok saved)
  unfolding persist with_transaction begun finish committed store_article
  persist-succeeds db uuids left s outcome active free done storable =
      let r = outcome_succeeds db left outcome storable in
      (r.0, rw (article_succeeds db uuids s active free, done _, r.2) refl)
