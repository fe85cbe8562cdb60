-- ===== src/Invariants/UniqueUrls.antt =====
-- What is unique in the tables of articles and sources: Create and Update of
-- services/controllers/articles.go and sources.go.
use Prim.Native.Char.{Char}
use news_feed_backend.Prelude.{
  ℕ, String, str_eq, str_eq_both, str_eq_sym, ◌≡◌, Bool, true, false, List, [], ◌∷◌, All, All-map,
  All-exists, Pairwise, Pairwise-update_where, exists, update_where, arith, is_none, ◌&&◌,
}
use news_feed_backend.Store.{Article, Source, Db, World}
use news_feed_backend.History.{Event, run}
use news_feed_backend.History.Changes.{Survives}
use news_feed_backend.History.Lift.{preserves}
use news_feed_backend.History.Runs.{run-keeps}
use news_feed_backend.Queries.Articles.{
  CreateArticleParams, UpdateArticleParams, clashes, clashes_on_update, is_active_article,
  new_article, updated_article, removed_article, with_content,
}
use news_feed_backend.Queries.Sources as SourceRows
use news_feed_backend.Queries.Sources.{
  CreateSourceParams, is_active_source, new_source, updated_source, removed_source,
}

-- Two articles have different ids, and different URLs if neither is removed.
abbrev pub AreApart : Article → Article → Type 0
AreApart a b =
    (str_eq b.id a.id ≡ false)
    × ((is_none a.removed_at && is_none b.removed_at) ≡ true
        → str_eq b.url_original a.url_original ≡ false)

-- The same for two sources, which have two URLs.
abbrev pub AreApartSources : Source → Source → Type 0
AreApartSources s t =
    (str_eq t.id s.id ≡ false)
    × ((is_none s.removed_at && is_none t.removed_at) ≡ true
        → (str_eq t.url s.url ≡ false) × (str_eq t.url_rss s.url_rss ≡ false))

pub record HasUniqueUrls (db : Db) : Type 0 where
  pub articles : Pairwise AreApart db.articles
  pub sources : Pairwise AreApartSources db.sources

article_added :
    (now : ℕ) (p : CreateArticleParams) (rows : List Article)
    → exists (clashes p) rows ≡ false
    → Pairwise AreApart rows
    → Pairwise AreApart (new_article now p ∷ rows)
article_added now p rows free h = (
  All-map _ _ (λ a k. (ground arith, λ l. ground arith)) rows (All-exists (clashes p) rows free),
  h,
)

source_added :
    (now : ℕ) (p : CreateSourceParams) (ss : List Source)
    → exists (SourceRows.clashes p) ss ≡ false
    → Pairwise AreApartSources ss
    → Pairwise AreApartSources (new_source now p ∷ ss)
source_added now p ss free h = (
  All-map _ _ (λ s k. (ground arith, λ l. (ground arith, ground arith))) ss
      (All-exists (SourceRows.clashes p) ss free),
  h,
)

article_changed :
    (now : ℕ) (p : UpdateArticleParams) (rows : List Article)
    → exists (clashes_on_update p) rows ≡ false
    → Pairwise AreApart rows
    → Pairwise AreApart (update_where (is_active_article p.id) (updated_article now p) rows)
article_changed now p rows free h =
    Pairwise-update_where (λ a. clashes_on_update p a ≡ false) AreApart (is_active_article p.id)
      (updated_article now p) (λ a b j k r e f. absurd (ground (arith, str_eq_both a.id b.id p.id)))
      (λ a b j k r e f. (r.0, λ l. ground (arith, str_eq_both a.id b.id p.id)))
      (λ a b j k r e f. (
        r.0,
        λ l. ground (
          arith,
          str_eq_both a.id b.id p.id,
          str_eq_sym p.url_original a.url_original,
          str_eq_sym a.id b.id,
          str_eq_both b.id a.id p.id,
        ),
      ))
      rows (All-exists _ rows free) h

source_changed :
    (now : ℕ) (p : CreateSourceParams) (ss : List Source)
    → exists (SourceRows.clashes_on_update p) ss ≡ false
    → Pairwise AreApartSources ss
    → Pairwise AreApartSources (update_where (is_active_source p.id) (updated_source now p) ss)
source_changed now p ss free h =
    Pairwise-update_where (λ s. SourceRows.clashes_on_update p s ≡ false) AreApartSources
      (is_active_source p.id) (updated_source now p)
      (λ s t j k r e f. absurd (ground (arith, str_eq_both s.id t.id p.id)))
      (λ s t j k r e f. (
        r.0,
        λ l. (
          ground (arith, str_eq_both s.id t.id p.id),
          ground (arith, str_eq_both s.id t.id p.id),
        ),
      ))
      (λ s t j k r e f. (
        r.0,
        λ l. (
          ground (arith, str_eq_sym p.url s.url, str_eq_sym s.id t.id, str_eq_both t.id s.id p.id),
          ground (
            arith,
            str_eq_sym p.url_rss s.url_rss,
            str_eq_sym s.id t.id,
            str_eq_both t.id s.id p.id,
          ),
        ),
      ))
      ss (All-exists _ ss free) h

Any : {A : Type 0} → A → Type 0
Any x = Unit {0}

everything : {A : Type 0} (xs : List A) → All Any xs
unfolding Any
everything [] = tt
everything (x ∷ xs) = (tt, everything xs)

articles_removed :
    (now : ℕ) (test : Article → Bool) (rows : List Article)
    → Pairwise AreApart rows
    → Pairwise AreApart (update_where test (removed_article now) rows)
articles_removed now test rows h =
    Pairwise-update_where Any AreApart test (removed_article now)
      (λ a b j k r e f. (r.0, λ l. absurd (ground arith)))
      (λ a b j k r e f. (r.0, λ l. absurd (ground arith)))
      (λ a b j k r e f. (r.0, λ l. absurd (ground arith))) rows (everything rows) h

sources_removed :
    (now : ℕ) (test : Source → Bool) (rows : List Source)
    → Pairwise AreApartSources rows
    → Pairwise AreApartSources (update_where test (removed_source now) rows)
sources_removed now test rows h =
    Pairwise-update_where Any AreApartSources test (removed_source now)
      (λ s t j k r e f. (r.0, λ l. absurd (ground arith)))
      (λ s t j k r e f. (r.0, λ l. absurd (ground arith)))
      (λ s t j k r e f. (r.0, λ l. absurd (ground arith))) rows (everything rows) h

survives : Survives HasUniqueUrls
survives = record {
  source_added = λ now p db free h. record {
    articles = h.articles;
    sources = source_added now p db.sources free h.sources;
  };
  source_changed = λ now p db free h. record {
    articles = h.articles;
    sources = source_changed now p db.sources free h.sources;
  };
  source_gone = λ n n' n'' id db h. record {
    articles = articles_removed n'' _ db.articles h.articles;
    sources = sources_removed n _ db.sources h.sources;
  };
  article_added = λ now p db found free h. record {
    articles = article_added now p db.articles free h.articles;
    sources = h.sources;
  };
  article_changed = λ now p db free h. record {
    articles = article_changed now p db.articles free h.articles;
    sources = h.sources;
  };
  content_changed = λ now content id db h. record {
    articles =
        Pairwise-update_where Any AreApart (is_active_article id) (with_content now content)
          (λ a b j k r e f. r) (λ a b j k r e f. r) (λ a b j k r e f. r) db.articles
          (everything db.articles) h.articles;
    sources = h.sources;
  };
  article_gone = λ now id db h. record {
    articles = articles_removed now _ db.articles h.articles;
    sources = h.sources;
  };
  link_added =
      λ now id article_id href db there h. record { articles = h.articles; sources = h.sources };
  link_changed =
      λ now new_href old_href db h. record { articles = h.articles; sources = h.sources };
  feed_added = λ now p db few free there h. record { articles = h.articles; sources = h.sources };
  feed_changed = λ now p db h. record { articles = h.articles; sources = h.sources };
  feed_gone = λ now id user_id db h. record { articles = h.articles; sources = h.sources };
  associated =
      λ now id article_id feed_id db h. record { articles = h.articles; sources = h.sources };
  marked = λ now article_id user_id db h. record { articles = h.articles; sources = h.sources };
  token_added =
      λ now id user_id at db free revoked h. record { articles = h.articles; sources = h.sources };
  token_extended = λ now id at db h. record { articles = h.articles; sources = h.sources };
  token_gone = λ now id db h. record { articles = h.articles; sources = h.sources };
  tokens_gone = λ now user_id db h. record { articles = h.articles; sources = h.sources };
  user_added = λ n n' p q db free same h. record { articles = h.articles; sources = h.sources };
  user_logged_in = λ now id db h. record { articles = h.articles; sources = h.sources };
  user_seen = λ now id db h. record { articles = h.articles; sources = h.sources };
  user_gone = λ n n' n'' n''' id db h. record { articles = h.articles; sources = h.sources };
  preferences_changed = λ now language personality user_id db h. record {
    articles = h.articles;
    sources = h.sources;
  };
  system_changed = λ ss db h. record { articles = h.articles; sources = h.sources };
}

-- After every history of requests and sweeps of the scheduler, no two articles have the same id and
-- no two that are not removed have the same original URL, and likewise for the sources and their
-- two URLs, if this was so before.
pub run-HasUniqueUrls :
    (lower : Char → Char) (valid_url : String → Bool) (expiry lifetime : ℕ) (es : List (ℕ × Event))
    (w : World)
    → HasUniqueUrls w.db
    → HasUniqueUrls (run lower valid_url expiry lifetime es w).db
run-HasUniqueUrls lower valid_url expiry lifetime =
    run-keeps lower valid_url expiry lifetime (preserves lower survives)
