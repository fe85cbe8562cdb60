-- ===== src/Reading/FeedRows.antt =====
-- The rows of ListArticlesByFeedForUser, before and after they are ordered and cut.
use mathlib.Core.List.{Mem, mem-cons_self, mem-cons_of_mem}
use news_feed_backend.Prelude.{
  ℕ, zero, suc, ◌≤◌, str_eq, str_eq_iff, ◌≡◌, ◌∙◌, refl, sym, ap, subst, Bool, true, false, not,
  Option, none, some, some-injective, List, [], ◌∷◌, map, exists, find_first, take, drop, All,
  All-find_first, All-map, Bool-cases, and_elim, inl, inr, if◌then◌else◌, arith,
}
use news_feed_backend.Store.{Article, ArticlesFeed, Source, Db}
use news_feed_backend.Queries.Articles.{is_active_article}
use news_feed_backend.Queries.Sources.{is_active_source}
use news_feed_backend.Queries.Feeds.{is_active_feed}
use news_feed_backend.Queries.FeedArticles.{
  FeedArticleRow, FeedArticleParams, with_row, feed_rows, row_of, is_asked, has_state, is_from,
  is_until, joined_row, joined_source, joined_article,
}
use news_feed_backend.Reading.Responses.{ArticleResponse, to_source_response}
use news_feed_backend.Reading.FeedArticles.{row_to_article_response}
use news_feed_backend.Reading.ArticleLists.{without_content}

module _ {A : Type 0} (P : A → Type 0) where
  pub All-take : (n : ℕ) (xs : List A) → All P xs → All P (take n xs)
  All-take zero xs h = tt
  All-take (suc n) [] h = tt
  All-take (suc n) (x ∷ xs) (p, h) = (p, All-take n xs h)

  pub All-drop : (n : ℕ) (xs : List A) → All P xs → All P (drop n xs)
  All-drop zero xs h = h
  All-drop (suc n) [] h = tt
  All-drop (suc n) (x ∷ xs) (p, h) = All-drop n xs h

no_claim : {A : Type 0} (xs : List A) → All (λ (x : A). Unit {0}) xs
no_claim [] = tt
no_claim (x ∷ xs) = (tt, no_claim xs)

-- The document of an article in a feed, but for its content.
abbrev pub plain_document : Bool → ArticlesFeed → Article → Source → ArticleResponse
plain_document with_sources af a s = record {
  id = a.id;
  status = a.status;
  title = a.title;
  content = "";
  url_original = a.url_original;
  keywords = a.keywords;
  source_id = a.source_id;
  language_original = a.language_original;
  created_at = a.created_at;
  modified_at = a.modified_at;
  is_read = some af.is_read;
  source = if with_sources then some (to_source_response s) else none;
}

has_state_iff :
    (o : Option Bool) (is_read : Bool)
    → ((has_state o is_read ≡ true) → (b : Bool) → o ≡ some b → is_read ≡ b)
      × (((b : Bool) → o ≡ some b → is_read ≡ b) → has_state o is_read ≡ true)
has_state_iff none is_read = ((λ h b e. absurd (ground arith)), (λ h. refl))
has_state_iff (some true) is_read = ((λ h b e. h ∙ some-injective true b e), (λ h. h true refl))
has_state_iff (some false) is_read =
    ((λ h b e. not_true is_read h ∙ some-injective false b e), (λ h. rw (h false refl) refl))
  where
    not_true : (b : Bool) → not b ≡ true → b ≡ false
    not_true b h = ground (arith, h)

is_from_iff :
    (o : Option ℕ) (n : ℕ)
    → ((is_from o n ≡ true) → (t : ℕ) → o ≡ some t → t ≤ n)
      × (((t : ℕ) → o ≡ some t → t ≤ n) → is_from o n ≡ true)
is_from_iff none n = ((λ h t e. absurd (ground arith)), (λ h. refl))
is_from_iff (some start) n = (
  (λ h t e. subst (λ x. x ≤ n) (some-injective start t e) (ground (arith, h))),
  (λ h. let k = h start refl in ground (arith, k)),
)

is_until_iff :
    (o : Option ℕ) (n : ℕ)
    → ((is_until o n ≡ true) → (t : ℕ) → o ≡ some t → n ≤ t)
      × (((t : ℕ) → o ≡ some t → n ≤ t) → is_until o n ≡ true)
is_until_iff none n = ((λ h t e. absurd (ground arith)), (λ h. refl))
is_until_iff (some end) n = (
  (λ h t e. subst (λ x. n ≤ x) (some-injective end t e) (ground (arith, h))),
  (λ h. let k = h end refl in ground (arith, k)),
)

module _ (p : FeedArticleParams) (db : Db) where
  -- The association is of the feed that is asked for, which is an active one of the user, and joins
  -- an active article with its active source; it passes the filters.
  pub record IsJoined (af : ArticlesFeed) (a : Article) (s : Source) : Type 0 where
    pub of_feed : str_eq af.feed_id p.feed_id ≡ true
    pub owned : exists (is_active_feed af.feed_id p.user_id) db.feeds ≡ true
    pub article : find_first (is_active_article af.article_id) db.articles ≡ some a
    pub source : find_first (is_active_source a.source_id) db.sources ≡ some s
    pub state : (b : Bool) → p.is_read ≡ some b → af.is_read ≡ b
    pub start : (t : ℕ) → p.period_starting_at ≡ some t → t ≤ a.created_at
    pub end : (t : ℕ) → p.period_ending_at ≡ some t → a.created_at ≤ t

  -- The row joins one of the associations.
  pub record IsRow (afs : List ArticlesFeed) (row : FeedArticleRow) : Type 0 where
    pub af : ArticlesFeed
    pub a : Article
    pub s : Source
    pub held : Mem af afs
    pub joined : IsJoined af a s
    pub same : row ≡ joined_row af a s

  -- The associations that match bring a document each, in their order, and the others bring none.
  pub data AreMatching (with_sources : Bool)
      : List ArticlesFeed → List ArticleResponse → Type 0 where
    done : AreMatching with_sources [] []
    shown :
        {af : ArticlesFeed} {afs : List ArticlesFeed} {docs : List ArticleResponse} (a : Article)
        (s : Source)
        → IsJoined af a s
        → AreMatching with_sources afs docs
        → AreMatching with_sources (af ∷ afs) (plain_document with_sources af a s ∷ docs)
    hidden :
        {af : ArticlesFeed} {afs : List ArticlesFeed} {docs : List ArticleResponse}
        → ((a : Article) (s : Source) → ¬ IsJoined af a s)
        → AreMatching with_sources afs docs
        → AreMatching with_sources (af ∷ afs) docs

  module _ (af : ArticlesFeed) where
    abbrev IsBrought : FeedArticleRow → Type 0
    IsBrought row = (a : Article) × ((s : Source) × (IsJoined af a s × (row ≡ joined_row af a s)))

    asked_IsJoined :
        (a : Article) (s : Source)
        → find_first (is_active_article af.article_id) db.articles ≡ some a
        → find_first (is_active_source a.source_id) db.sources ≡ some s
        → is_asked p db af a ≡ true
        → IsJoined af a s
    asked_IsJoined a s found found_source asked =
        let parts = and_elim _ _ asked in
        let feed = and_elim _ _ parts.0 in
        let filters = and_elim _ _ parts.1 in
        let period = and_elim _ _ filters.1 in
        record {
          of_feed = feed.1;
          owned = feed.0;
          article = found;
          source = found_source;
          state = (has_state_iff p.is_read af.is_read).0 filters.0;
          start = (is_from_iff p.period_starting_at a.created_at).0 period.0;
          end = (is_until_iff p.period_ending_at a.created_at).0 period.1;
        }

    row_of-IsBrought : (row : FeedArticleRow) → row_of p db af ≡ some row → IsBrought row
    row_of-IsBrought row e = by_article _ refl e
      where
        by_source :
            (a : Article) (o : Option Source)
            → find_first (is_active_article af.article_id) db.articles ≡ some a
            → find_first (is_active_source a.source_id) db.sources ≡ o
            → joined_source p db af a o ≡ some row
            → IsBrought row
        by_source a none found none_found e = absurd (ground arith)
        by_source a (some s) found found_source e = elim (Bool-cases (is_asked p db af a)) [
          | inl hit ↦ (
            a,
            (
              s,
              (
                asked_IsJoined a s found found_source hit,
                sym (some-injective (joined_row af a s) row (rw hit at e)),
              ),
            ),
          )
          | inr miss ↦ absurd (nothing (rw miss at e))
        ]
          where
            nothing : none ≡ some row → ⊥
            nothing e = ground arith

        by_article :
            (o : Option Article)
            → find_first (is_active_article af.article_id) db.articles ≡ o
            → joined_article p db af o ≡ some row
            → IsBrought row
        by_article none none_found e = absurd (ground arith)
        by_article (some a) found e = by_source a _ found refl e

    row_of-joined :
        (a : Article) (s : Source) → IsJoined af a s → row_of p db af ≡ some (joined_row af a s)
    row_of-joined a s h =
        let state = (has_state_iff p.is_read af.is_read).1 h.state in
        let start = (is_from_iff p.period_starting_at a.created_at).1 h.start in
        let end = (is_until_iff p.period_ending_at a.created_at).1 h.end in
        rw (h.article, h.source, h.owned, h.of_feed, state, start, end) refl

  cons-IsRow :
      (af : ArticlesFeed) (afs : List ArticlesFeed) (row : FeedArticleRow)
      → IsRow afs row
      → IsRow (af ∷ afs) row
  cons-IsRow af afs row h = record {
    af = h.af;
    a = h.a;
    s = h.s;
    held = mem-cons_of_mem af h.held;
    joined = h.joined;
    same = h.same;
  }

  pub feed_rows-IsRow : (afs : List ArticlesFeed) → All (IsRow afs) (feed_rows p db afs)
  unfolding feed_rows
  feed_rows-IsRow [] = tt
  feed_rows-IsRow (af ∷ afs) =
      let rest : All (IsRow (af ∷ afs)) (feed_rows p db afs) =
        All-map (IsRow afs) (IsRow (af ∷ afs)) (cons-IsRow af afs) (feed_rows p db afs)
          (feed_rows-IsRow afs) in
      go (row_of p db af) refl rest
    where
      go :
          (o : Option FeedArticleRow)
          → row_of p db af ≡ o
          → All (IsRow (af ∷ afs)) (feed_rows p db afs)
          → All (IsRow (af ∷ afs)) (with_row o (feed_rows p db afs))
      go none e h = h
      go (some row) e h =
          let b = row_of-IsBrought af row e in
          (
            record {
              af = af;
              a = b.0;
              s = b.1.0;
              held = mem-cons_self;
              joined = b.1.1.0;
              same = b.1.1.1;
            },
            h,
          )

  module _ (with_sources : Bool) where
    -- The document of a row, but for its content.
    abbrev pub plain_row : FeedArticleRow → ArticleResponse
    plain_row row = without_content (row_to_article_response row with_sources)

    pub plain_row-joined :
        (af : ArticlesFeed) (a : Article) (s : Source)
        → IsJoined af a s
        → plain_row (joined_row af a s) ≡ plain_document with_sources af a s
    unfolding row_to_article_response
    plain_row-joined af a s h =
        let hit = All-find_first (λ x. Unit {0}) _ db.sources s (no_claim db.sources) h.source in
        let same : s.id ≡ a.source_id = (str_eq_iff s.id a.source_id).0 (and_elim _ _ hit.1).0 in
        ap
          (λ id. record (plain_document with_sources af a s) {
            source =
                if with_sources then some (record (to_source_response s) { id = id }) else none;
          })
          (sym same)

    pub feed_rows-AreMatching :
        (afs : List ArticlesFeed)
        → AreMatching with_sources afs (map plain_row (feed_rows p db afs))
    unfolding feed_rows
    feed_rows-AreMatching [] = done
    feed_rows-AreMatching (af ∷ afs) = go (row_of p db af) refl (feed_rows-AreMatching afs)
      where
        go :
            (o : Option FeedArticleRow)
            → row_of p db af ≡ o
            → AreMatching with_sources afs (map plain_row (feed_rows p db afs))
            → AreMatching with_sources (af ∷ afs) (map plain_row (with_row o (feed_rows p db afs)))
        go none e h = hidden (λ a s k. nothing (sym e ∙ row_of-joined af a s k)) h
          where
            nothing : {row : FeedArticleRow} → none ≡ some row → ⊥
            nothing e = ground arith
        go (some row) e h =
            let b = row_of-IsBrought af row e in
            subst
              (λ d. AreMatching with_sources (af ∷ afs) (d ∷ map plain_row (feed_rows p db afs)))
              (sym (ap plain_row b.1.1.1 ∙ plain_row-joined af b.0 b.1.0 b.1.1.0))
              (shown b.0 b.1.0 b.1.1.0 h)
