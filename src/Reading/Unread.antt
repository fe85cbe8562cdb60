-- ===== src/Reading/Unread.antt =====
-- CheckForNewArticles and FeedArticles of services/endpoints/v1/feeds: the counts of unread
-- articles of the one are the totals of the other.
use news_feed_backend.Prelude.{
  ℕ, suc, String, str_eq, str_eq_iff, ◌≡◌, ◌∙◌, refl, sym, ap, subst, Bool, true, false, not, ◌&&◌,
  some, none, List, [], ◌∷◌, length, count_where, exists, find_first, All-find_first,
  exists_of_find_first, Bool-cases, Option-cases, and_elim, inl, inr, if◌then◌else◌, arith,
}
use news_feed_backend.Store.{Article, ArticlesFeed, Feed, Source, Db}
use news_feed_backend.Queries.Articles.{is_active_article}
use news_feed_backend.Queries.Sources.{is_active_source}
use news_feed_backend.Queries.Feeds.{is_active_feed}
use news_feed_backend.Queries.ArticlesFeeds.{UnreadRow, is_unread_in, unread_rows}
use news_feed_backend.Queries.FeedArticles.{
  FeedArticleRow, FeedArticleParams, row_of, with_row, feed_rows, is_asked,
}
use news_feed_backend.Invariants.ActiveSources.{HasActiveSource, HasActiveSources}

module _ {A : Type 0} (test : A → Bool) where
  found_of_exists : (xs : List A) → exists test xs ≡ true → (x : A) × (find_first test xs ≡ some x)
  unfolding exists find_first
  found_of_exists [] e = absurd (ground arith)
  found_of_exists (x ∷ xs) e = elim (Bool-cases (test x)) [
    | inl hit ↦ (x, rw hit refl)
    | inr miss ↦ let rest = found_of_exists xs (rw miss at e) in (rest.0, rw (miss, rest.1) refl)
  ]

  pub exists-none : (xs : List A) → find_first test xs ≡ none → exists test xs ≡ false
  unfolding exists find_first
  exists-none [] e = refl
  exists-none (x ∷ xs) e = ground (arith, exists-none xs)

-- What the answer of CheckForNewArticles tells of a feed: an absent one has nothing unread.
unfoldable pub told_of : String → List UnreadRow → ℕ
told_of id [] = 0
told_of id (r ∷ rest) = if str_eq r.feed_id id then r.unread_count else told_of id rest

-- The unread articles of the feed, without a bound on the time.
abbrev pub unread_params : String → String → FeedArticleParams
unread_params user_id id = record {
  user_id = user_id;
  feed_id = id;
  is_read = some false;
  period_starting_at = none;
  period_ending_at = none;
}

module _ (db : Db) (sources : HasActiveSources db) (user_id id : String)
    (own : exists (is_active_feed id user_id) db.feeds ≡ true) where
  -- The test that the count of unread articles makes of an association.
  abbrev pub counts : ArticlesFeed → Bool
  counts af =
      str_eq af.feed_id id
      && (not af.is_read && exists (is_active_article af.article_id) db.articles)

  asked_lem :
      (af : ArticlesFeed) (a : Article)
      → is_asked (unread_params user_id id) db af a ≡ str_eq af.feed_id id && not af.is_read
  asked_lem af a = elim (Bool-cases (str_eq af.feed_id id)) [
    | inl hit ↦
        let same : af.feed_id ≡ id = (str_eq_iff af.feed_id id).0 hit in
        let there : exists (is_active_feed af.feed_id user_id) db.feeds ≡ true =
          subst (λ x. exists (is_active_feed x user_id) db.feeds ≡ true) (sym same) own in
        rw (there, hit) (ground arith)
    | inr miss ↦ ground (arith, miss)
  ]

  has_source :
      (article_id : String) (a : Article)
      → find_first (is_active_article article_id) db.articles ≡ some a
      → (s : Source) × (find_first (is_active_source a.source_id) db.sources ≡ some s)
  has_source article_id a found =
      let facts = All-find_first (HasActiveSource db.sources) _ db.articles a sources found in
      found_of_exists _ db.sources (facts.0 ((and_elim _ _ facts.1).1))

  row_counts :
      (af : ArticlesFeed) (rows : List FeedArticleRow)
      → length (with_row (row_of (unread_params user_id id) db af) rows)
        ≡ (if counts af then suc (length rows) else length rows)
  row_counts af rows =
      elim (Option-cases (find_first (is_active_article af.article_id) db.articles)) [
        | inl missing ↦ rw (missing, exists-none _ db.articles missing) (ground arith)
        | inr (a, found) ↦
            let source = has_source af.article_id a found in
            let asked = asked_lem af a in
            let there = exists_of_find_first _ db.articles a found in
            rw (found, source.1, asked, there) (ground arith)
      ]

  pub rows_count :
      (afs : List ArticlesFeed)
      → length (feed_rows (unread_params user_id id) db afs) ≡ count_where counts afs
  unfolding feed_rows count_where
  rows_count [] = refl
  rows_count (af ∷ afs) =
      row_counts af (feed_rows (unread_params user_id id) db afs)
      ∙ ap (λ n. if counts af then suc n else n) (rows_count afs)

  pub told_lem :
      (fs : List Feed)
      → told_of id (unread_rows user_id db fs) ≡ (
          if exists (is_active_feed id user_id) fs then count_where counts db.articles_feeds else 0)
  unfolding unread_rows exists told_of
  told_lem [] = refl
  told_lem (f ∷ fs) = elim (Bool-cases (str_eq f.id id)) [
    | inl hit ↦
        let same : f.id ≡ id = (str_eq_iff f.id id).0 hit in
        let count : count_where (is_unread_in db f) db.articles_feeds
            ≡ count_where counts db.articles_feeds =
          ap
            (λ x.
              count_where
                (λ (af : ArticlesFeed).
                  str_eq af.feed_id x
                  && (not af.is_read && exists (is_active_article af.article_id) db.articles))
                db.articles_feeds)
            same in
        rw (count, hit) (ground (arith, hit, told_lem fs))
    | inr miss ↦ ground (arith, miss, told_lem fs)
  ]
