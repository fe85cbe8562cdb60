-- ===== src/Outcomes/Skips.antt =====
-- The articles that processOne of services/discovery/processor.go leaves out.
use Prim.Native.Char.{Char}
use news_feed_backend.Prelude.{
  String, ◌≡◌, refl, subst, Bool, true, false, some, find_first, Bool-cases, inl, inr, ◌⊎◌, arith,
  str_eq,
}
use news_feed_backend.Store.{
  Article, Db, Error, Result, ok, err, World, then_do, caught, read, query, answered, faulty, Leads,
  Keeps, with_transaction-Leads, >>=-Leads, pure-Leads, attempt-Leads, db_failure, >>=-Keeps,
  pure-Keeps, attempt-Keeps,
}
use news_feed_backend.Queries.Articles.{has_active_url, find_article_by_url_original}
use news_feed_backend.Controllers.Articles
use news_feed_backend.Discovery.Items.{DiscoveredArticle}
use news_feed_backend.Discovery.Lookup.{exists_of, look_up, already_exists}
use news_feed_backend.Discovery.Processor
use news_feed_backend.Discovery.Processor.{Treatment, Ai, treat_new, process_one}
use news_feed_backend.History.Discoveries.{known, urls_treated}

module _ (url : String) (b : Article) where
  abbrev IsThere : Db → Type 0
  IsThere db = find_first (has_active_url url) db.articles ≡ some b

  abbrev IsTold : Result Article → Type 0
  IsTold r = (r ≡ err db_failure) ⊎ (r ≡ ok b)

  looked_up : (w : World) → IsThere w.db → IsTold (Articles.find_by_url_original url w).0
  unfolding Articles.find_by_url_original find_article_by_url_original read query answered
  looked_up w there = elim (Bool-cases (faulty w.faults)) [
    | inl hit ↦ rw hit (inl refl)
    | inr miss ↦ rw (miss, there) (inr refl)
  ]

  told : (r : Result Article) → Leads (λ db. IsTold r) (λ found db. found ≡ true) (exists_of r)
  told (ok a) = pure-Leads _ _ true (λ db h. refl)
  told (err e) = record {
    at = λ w h found done. elim h [
      | inl same ↦
          absurd (failed (subst (λ x. (exists_of (err x) w).0 ≡ ok found) (err_inj same) done))
      | inr same ↦ absurd (ground arith)
    ];
  }
    where
      err_inj : {x y : Error} → ◌≡◌ {A = Result Article} (err x) (err y) → x ≡ y
      err_inj same = cc

      failed : {found : Bool} → ◌≡◌ {A = Result Bool} (err db_failure) (ok found) → ⊥
      failed h = ground arith

  exists_told : Leads IsThere (λ found db. found ≡ true) (already_exists url)
  unfolding already_exists look_up
  exists_told =
      with_transaction-Leads IsThere (λ found db. found ≡ true)
        (>>=-Leads IsThere (λ r db. IsTold r) _
          (attempt-Leads IsThere (λ r db. IsTold r) (Articles.find_by_url_original url) looked_up)
          told)

module _ (lower : Char → Char) (t : Treatment) (ai : Ai) (a : DiscoveredArticle) where
  -- When an active article has the URL already, processOne leaves the database as it was, whatever
  -- statements fail.
  pub process_one-known :
      (b : Article) (w : World)
      → find_first (has_active_url a.url_original) w.db.articles ≡ some b
      → (process_one lower t ai a w).1.db ≡ w.db
  unfolding process_one
  process_one-known b w there =
      go (already_exists a.url_original w) ((exists_told a.url_original b).at w there)
        ((known (λ db. db ≡ w.db) a.url_original).at w refl)
    where
      go :
          (r : Result Bool × World)
          → ((found : Bool) → r.0 ≡ ok found → found ≡ true)
          → r.1.db ≡ w.db
          → (then_do (Processor.unless_known lower t ai a) (caught r)).1.db ≡ w.db
      go (err e, v) h k = k
      go (ok true, v) h k = k
      go (ok false, v) h k = absurd (ground (arith, h false refl))

  -- When the AI names no keywords, processOne leaves the database as it was.
  pub process_one-unnamed :
      (w : World)
      → ((title text : String) → (e : Error) × (ai.keywords title text ≡ err e))
      → (process_one lower t ai a w).1.db ≡ w.db
  unfolding process_one treat_new
  process_one-unnamed w fails =
      (>>=-Keeps Same (attempt-Keeps Same (known Same a.url_original)) go).at w refl
    where
      Same : Db → Type 0
      Same db = db ≡ w.db

      body : (x : Bool) → Keeps Same (Processor.treat_urls lower t x a.content)
      body true = pure-Keeps Same a.content
      body false =
          >>=-Keeps Same
            (attempt-Keeps Same (urls_treated Same t.parse t.render t.client_url a.content))
            λ r. pure-Keeps Same (Processor.result_or a.content r)

      dropped :
          (content : String)
          → Keeps Same (
              Processor.keep_article lower t ai a content
                (ai.keywords a.title (t.plain_text content)))
      dropped content = rw (fails a.title (t.plain_text content)).1 (pure-Keeps Same tt)

      go : (r : Result Bool) → Keeps Same (Processor.unless_known lower t ai a r)
      go (err e) = pure-Keeps Same tt
      go (ok true) = pure-Keeps Same tt
      go (ok false) =
          >>=-Keeps Same (body (str_eq t.client_url ""))
            λ b. dropped (Processor.treated_content lower t b)
