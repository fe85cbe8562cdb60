-- ===== src/Reading/FeedSafety.antt =====
-- What FeedArticles of services/endpoints/v1/feeds/articles.go may show, and to whom.
use mathlib.Core.List.{Mem}
use news_feed_backend.Prelude.{
  ℕ, String, str_eq, ◌≡◌, ◌∙◌, refl, ap, subst, Bool, true, Option, none, some, List, [], ◌∷◌, map,
  exists, find_first, exists_of_find_first, drop, All, Bool-cases, inl, inr, arith,
}
use news_feed_backend.Prelude.Int.{ℤ, pos, negsuc}
use news_feed_backend.Store.{
  Article, ArticlesFeed, Source, ArticleOutboundLink, Db, Error, World, Result, ok, err, M, Leads,
  >>=-Leads, map_err-Leads, read-Leads, pure-Leads, with_transaction-Leads, with_transaction, one,
}
use news_feed_backend.Pagination.{Response, build_response, parse_params, limit, offset}
use news_feed_backend.Queries.Order.{comes_first, sorted, windowed}
use news_feed_backend.Queries.Feeds.{is_active_feed, find_feed_by_id_and_user}
use news_feed_backend.Queries.FeedArticles
use news_feed_backend.Queries.FeedArticles.{FeedArticleRow, FeedArticleParams, feed_rows, row_key}
use news_feed_backend.Queries.OutboundLinks.{list_article_outbound_links_by_article_ids}
use news_feed_backend.Controllers.Feeds
use news_feed_backend.Controllers.OutboundLinks.{list_by_article_ids}
use news_feed_backend.Controllers.Filters.{ListFeedArticlesFilter}
use news_feed_backend.Controllers.Listing.{params_of, list_articles_by_feed_for_user}
use news_feed_backend.Outbound.Anchors.{Nodes}
use news_feed_backend.Endpoints.Reply.{Reply, done, respond, answer, guarded, with_body}
use news_feed_backend.Reading.Responses.{ArticleResponse}
use news_feed_backend.Reading.FeedArticles.{
  FeedArticlesQuery, parse_is_read, parse_utc_time, shown_row, find_feed_articles, answer_rows,
  feed_articles,
}
use news_feed_backend.Reading.FeedRows.{
  IsJoined, plain_document, IsRow, feed_rows-IsRow, plain_row, plain_row-joined, All-take, All-drop,
}
use news_feed_backend.Reading.Sorting.{All-sorted}
use news_feed_backend.Reading.ArticleLists.{without_content}

windowed-All :
    {A : Type 0} (P : A → Type 0) (page_limit page_offset : ℤ) (rows page : List A)
    → All P rows
    → windowed page_limit page_offset rows ≡ ok page
    → All P page
unfolding windowed
windowed-All P (pos n) (pos m) rows page h e =
    subst (All P) (ok_inj e) (All-take P n (drop m rows) (All-drop P m rows h))
  where
    ok_inj : {A : Type 0} {x y : A} → ok x ≡ ok y → x ≡ y
    ok_inj e = cc
windowed-All P (negsuc n) m rows page h e = absurd (ground arith)
windowed-All P (pos n) (negsuc m) rows page h e = absurd (ground arith)

one_ok : {A : Type 0} (o : Option A) (a : A) → one o ≡ ok a → o ≡ some a
one_ok none a e = absurd (ground arith)
one_ok (some b) a e = cc

module _ (db : Db) (id user_id : String) (filter : ListFeedArticlesFilter) where
  abbrev SameDb : Db → Type 0
  SameDb d = d ≡ db

  abbrev IsOwn : Type 0
  IsOwn = exists (is_active_feed id user_id) db.feeds ≡ true

  abbrev asked : FeedArticleParams
  asked = params_of id user_id filter

  abbrev cut : List FeedArticleRow → Result (List FeedArticleRow)
  cut rows = windowed (limit filter.page) (offset filter.page) (sorted row_key rows)

  abbrev AreRows : List FeedArticleRow → Type 0
  AreRows rows = All (IsRow asked db db.articles_feeds) rows

  find_by_id-Leads : Leads SameDb (λ f d. SameDb d × IsOwn) (Feeds.find_by_id id user_id)
  unfolding Feeds.find_by_id find_feed_by_id_and_user
  find_by_id-Leads = map_err-Leads SameDb _ _ (
      read-Leads SameDb _ _ (λ now d f same e. (
        same,
        exists_of_find_first _ db.feeds f (
            one_ok _ f
              (subst (λ x. one (find_first (is_active_feed id user_id) x.feeds) ≡ ok f) same e)),
      )))

  listed-Leads :
      Leads
        (λ d. SameDb d × IsOwn)
        (λ rows d. (SameDb d × IsOwn) × AreRows rows)
        (FeedArticles.list_articles_by_feed_for_user asked (limit filter.page) (offset filter.page))
  unfolding FeedArticles.list_articles_by_feed_for_user
  listed-Leads = read-Leads _ _ _ (λ now d rows h e. (
    h,
    windowed-All _ _ _ _ rows
        (All-sorted (comes_first row_key) _ _ (feed_rows-IsRow asked db db.articles_feeds))
        (subst (λ x. cut (feed_rows asked x x.articles_feeds) ≡ ok rows) h.0 e),
  ))

  counted-Leads :
      Leads
        (λ d. SameDb d × IsOwn)
        (λ found d. IsOwn × AreRows found.rows)
        (list_articles_by_feed_for_user id user_id filter)
  unfolding list_articles_by_feed_for_user FeedArticles.count_articles_by_feed_for_user
  counted-Leads = >>=-Leads _ _ _ listed-Leads (λ rows.
      >>=-Leads _ (λ n d. IsOwn × AreRows rows) _ (read-Leads _ _ _ (λ now d n h e. (h.0.1, h.1)))
        (λ n. pure-Leads _ _ _ (λ d h. h)))

  links-Leads :
      (Q : Type 0) (ids : List String) → Leads (λ d. Q) (λ links d. Q) (list_by_article_ids ids)
  unfolding list_by_article_ids list_article_outbound_links_by_article_ids
  links-Leads Q [] = pure-Leads _ _ _ (λ d h. h)
  links-Leads Q (x ∷ xs) = read-Leads _ _ _ (λ now d links h e. h)

  find_feed_articles-Leads :
      Leads SameDb
        (λ r d. IsOwn × AreRows r.found.rows)
        (with_transaction (find_feed_articles id user_id filter))
  unfolding find_feed_articles
  find_feed_articles-Leads = with_transaction-Leads _ _ (
      >>=-Leads _ _ _ find_by_id-Leads (λ f. >>=-Leads _ _ _ counted-Leads (λ found.
        >>=-Leads _ (λ links d. IsOwn × AreRows found.rows) _
          (links-Leads (IsOwn × AreRows found.rows) _) (λ links. pure-Leads _ _ _ (λ d h. h)))))

-- A handler that is done got a value from its action.
pub respond_ok :
    {A : Type 0} (code : ℕ) (failure : Error → ℕ) (m : M A) (w : World) (status : ℕ) (a : A)
    → (respond code failure m w).0 ≡ done status a
    → (m w).0 ≡ ok a
unfolding respond
respond_ok code failure m w status a e = go (m w) e
  where
    go :
        {A : Type 0} {a : A} (r : Result A × World)
        → (answer code failure r).0 ≡ done status a
        → r.0 ≡ ok a
    go (ok b, v) e = cc
    go (err x, v) e = absurd (ground arith)

pub guarded_done :
    {A : Type 0} (message : String) (h : World → Reply A × World) (w : World) (status : ℕ) (a : A)
    → (guarded message h w).0 ≡ done status a
    → (h w).0 ≡ done status a
unfolding guarded
guarded_done message h w status a e = elim (Bool-cases (str_eq message "")) [
  | inl free ↦ rw free at e
  | inr stopped ↦ absurd (ground (arith, stopped, e))
]

pub with_body_done :
    {A B : Type 0} (body : Option B) (h : B → World → Reply A × World) (w : World) (status : ℕ)
    (a : A)
    → (with_body body h w).0 ≡ done status a
    → (b : B) × ((body ≡ some b) × ((h b w).0 ≡ done status a))
unfolding with_body
with_body_done none h w status a e = absurd (ground arith)
with_body_done (some b) h w status a e = (b, (refl, e))

-- What the query of the request asks for.
abbrev pub filter_of :
    (String → Option ℤ)
    → FeedArticlesQuery
    → Option Bool
    → Option ℕ
    → Option ℕ
    → ListFeedArticlesFilter
filter_of atoi q is_read start end = record {
  is_read = is_read;
  period_starting_at = start;
  period_ending_at = end;
  page = parse_params atoi q.page q.page_size;
}

module _ (parse : String → Option Nodes) (render : Nodes → Option String) where
  module _ (p : FeedArticleParams) (db : Db) (with_sources : Bool) where
    -- The document shows, but for its content, an article of the feed that passes the filters.
    pub record IsShown (doc : ArticleResponse) : Type 0 where
      pub af : ArticlesFeed
      pub a : Article
      pub s : Source
      pub held : Mem af db.articles_feeds
      pub joined : IsJoined p db af a s
      pub shows : without_content doc ≡ plain_document with_sources af a s

    All-IsShown :
        (links : List ArticleOutboundLink) (client_url : String) (rows : List FeedArticleRow)
        → All (IsRow p db db.articles_feeds) rows
        → All IsShown (map (shown_row parse render links client_url with_sources) rows)
    All-IsShown links client_url [] h = tt
    All-IsShown links client_url (r ∷ rest) (q, h) = (
      record {
        af = q.af;
        a = q.a;
        s = q.s;
        held = q.held;
        joined = q.joined;
        shows =
            ap (plain_row p db with_sources) q.same
            ∙ plain_row-joined p db with_sources q.af q.a q.s q.joined;
      },
      All-IsShown links client_url rest h,
    )

  answered_rows :
      (client_url user_id id : String) (with_sources : Bool) (filter : ListFeedArticlesFilter)
      (w : World) (status : ℕ) (reply : Response ArticleResponse)
      → (answer_rows parse render client_url user_id id with_sources filter w).0 ≡ done status reply
      → (exists (is_active_feed id user_id) w.db.feeds ≡ true)
        × All (IsShown (params_of id user_id filter) w.db with_sources) reply.docs
  unfolding answer_rows build_response
  answered_rows client_url user_id id with_sources filter w status reply e =
      let shaped =
        >>=-Leads (SameDb w.db id user_id filter) _
          (λ (x : Response ArticleResponse) d.
            IsOwn w.db id user_id filter
            × All (IsShown (params_of id user_id filter) w.db with_sources) x.docs)
          (find_feed_articles-Leads w.db id user_id filter)
          (λ r. pure-Leads _ _ _ (λ d h. (h.0, All-IsShown _ w.db _ r.links client_url _ h.1))) in
      shaped.at w refl reply (respond_ok _ _ _ w status reply e)

  -- When FeedArticles answers with a list, whatever statements fail: the feed is an active one of
  -- the caller, the filters of the query parse, and each document shows, but for its content, an
  -- active article with its active source that an association of the feed holds and that passes the
  -- filters, each field as it is in these rows, and as read what that association says.
  pub feed_articles-IsShown :
      (atoi : String → Option ℤ) (parse_time : String → Option ℕ) (client_url user_id : String)
      (q : FeedArticlesQuery) (w : World) (status : ℕ) (reply : Response ArticleResponse)
      → (feed_articles parse render atoi parse_time client_url user_id q w).0 ≡ done status reply
      → (exists (is_active_feed q.id user_id) w.db.feeds ≡ true)
        × ((is_read : Option Bool) × ((start : Option ℕ) × ((end : Option ℕ) × ((parse_is_read
                      q.is_read
                    ≡ some is_read)
                  × ((parse_utc_time parse_time q.period_starting_at ≡ some start)
                      × ((parse_utc_time parse_time q.period_ending_at ≡ some end)
                          × All
                              (IsShown
                                (params_of q.id user_id (filter_of atoi q is_read start end))
                                w.db
                                (str_eq q.with_sources "true"))
                              reply.docs))))))
  unfolding feed_articles
  feed_articles-IsShown atoi parse_time client_url user_id q w status reply e =
      let named = guarded_done _ _ w status reply e in
      let read = with_body_done (parse_is_read q.is_read) _ w status reply named in
      let start =
        with_body_done (parse_utc_time parse_time q.period_starting_at) _ w status reply read.1.1 in
      let end =
        with_body_done (parse_utc_time parse_time q.period_ending_at) _ w status reply start.1.1 in
      let shown = answered_rows client_url user_id q.id _ _ w status reply end.1.1 in
      (shown.0, (read.0, (start.0, (end.0, (read.1.0, (start.1.0, (end.1.0, shown.1)))))))
