-- ===== src/Reading/Untouched.antt =====
-- The reading handlers and the database.
use Prim.Native.Char.{Char}
use news_feed_backend.Prelude.{
  ℕ, String, str_eq, ◌≡◌, refl, Option, some, none, List, [], ◌∷◌, Bool-cases, inl, inr,
}
use news_feed_backend.Prelude.Int.{ℤ}
use news_feed_backend.Store.{
  Db, Error, World, Result, ok, err, M, Keeps, Keeps-Leads, with_transaction,
  with_transaction-Keeps, now_is-Keeps, pure, ◌>>=◌, >>=-Keeps, read-Keeps, pure-Keeps,
  map_err-Keeps,
}
use news_feed_backend.Queries.Articles.{find_article_by_id}
use news_feed_backend.Queries.ArticlesFeeds.{
  find_article_feeds_by_article_and_user, count_unread_articles_by_feed_for_user,
}
use news_feed_backend.Queries.FeedArticles
use news_feed_backend.Queries.Feeds.{find_feed_by_id_and_user}
use news_feed_backend.Queries.Listing
use news_feed_backend.Queries.OutboundLinks.{list_article_outbound_links_by_article_ids}
use news_feed_backend.Queries.Sources.{find_source_by_id}
use news_feed_backend.Controllers.Articles
use news_feed_backend.Controllers.ArticlesFeeds
use news_feed_backend.Controllers.Feeds
use news_feed_backend.Controllers.Filters.{ListFeedArticlesFilter}
use news_feed_backend.Controllers.Listing as ListControllers
use news_feed_backend.Controllers.OutboundLinks.{list_by_article_ids}
use news_feed_backend.Controllers.Sources
use news_feed_backend.Outbound.Anchors.{Nodes}
use news_feed_backend.Endpoints.Reply.{Reply, Handler, answer, respond, guarded, with_body}
use news_feed_backend.Queries.Suggestions.{
  KeywordRow, suggest_popular_keywords, suggest_related_keywords,
}
use news_feed_backend.Controllers.Suggestions.{suggest_popular, unless_empty, suggest_keywords}
use news_feed_backend.Reading.Suggestions.{suggest}
use news_feed_backend.Reading.Lists.{list_articles, list_sources, list_feeds, find_articles}
use news_feed_backend.Reading.Lookups.{
  get_article, get_source, get_feed, check_for_new_articles, find_article,
}
use news_feed_backend.Reading.FeedArticles.{
  FeedArticlesQuery, find_feed_articles, answer_rows, feed_articles,
}

module _ (I : Db → Type 0) where
  in_transaction :
      {A B : Type 0} {m : M A} (f : A → M B)
      → Keeps I m
      → ((a : A) → Keeps I (f a))
      → Keeps I (with_transaction m >>= f)
  in_transaction f k l = >>=-Keeps I (with_transaction-Keeps I (Keeps-Leads I k)) l

  pub links_keep : (ids : List String) → Keeps I (list_by_article_ids ids)
  unfolding list_by_article_ids list_article_outbound_links_by_article_ids
  links_keep [] = pure-Keeps I []
  links_keep (id ∷ ids) = read-Keeps I _

  feed_keeps : (id user_id : String) → Keeps I (Feeds.find_by_id id user_id)
  unfolding Feeds.find_by_id find_feed_by_id_and_user
  feed_keeps id user_id = map_err-Keeps I _ (read-Keeps I _)

  found_keeps :
      (id user_id : String) (filter : ListFeedArticlesFilter)
      → Keeps I (find_feed_articles id user_id filter)
  unfolding find_feed_articles ListControllers.list_articles_by_feed_for_user
      FeedArticles.list_articles_by_feed_for_user FeedArticles.count_articles_by_feed_for_user
  found_keeps id user_id filter = >>=-Keeps I (feed_keeps id user_id) (λ f.
      >>=-Keeps I
        (>>=-Keeps I (read-Keeps I _) (λ rows. >>=-Keeps I (read-Keeps I _) (λ n. pure-Keeps I _)))
        (λ found. >>=-Keeps I (links_keep _) (λ links. pure-Keeps I _)))

  article_keeps : (id user_id : String) → Keeps I (find_article id user_id)
  unfolding find_article Articles.find_by_id find_article_by_id
      ArticlesFeeds.find_by_article_and_user find_article_feeds_by_article_and_user
  article_keeps id user_id =
      >>=-Keeps I (map_err-Keeps I _ (read-Keeps I _))
        (λ a. >>=-Keeps I (read-Keeps I _) (λ r. >>=-Keeps I (links_keep _) (λ l. pure-Keeps I _)))

module _ (I : Db → Type 0) (lower : Char → Char) where
  popular_keep :
      (selected : List String) (since limit : ℕ)
      → Keeps I (suggest_popular lower selected since limit)
  unfolding suggest_popular_keywords
  popular_keep selected since limit = >>=-Keeps I (read-Keeps I _) (λ rows. pure-Keeps I _)

  rows_keep :
      (selected : List String) (since limit : ℕ) (rows : List KeywordRow)
      → Keeps I (unless_empty lower selected since limit rows)
  rows_keep selected since limit [] = record {
    at = λ w h. (popular_keep selected since limit).at w h;
  }
  rows_keep selected since limit (r ∷ rs) = pure-Keeps I _

  suggestions_keep :
      (selected : List String) (since limit : ℕ)
      → Keeps I (suggest_keywords lower selected since limit)
  unfolding suggest_keywords suggest_related_keywords
  suggestions_keep [] since limit = popular_keep [] since limit
  suggestions_keep (k ∷ ks) since limit =
      >>=-Keeps I (read-Keeps I _) (rows_keep (k ∷ ks) since limit)

module _ {A : Type 0} (code : ℕ) (failure : Error → ℕ) (m : M A)
    (keeps : (I : Db → Type 0) → Keeps I m) (w : World) where
  pub respond_same : (respond code failure m w).1.db ≡ w.db
  unfolding respond
  respond_same = go (m w) ((keeps (λ d. d ≡ w.db)).at w refl)
    where
      go : (r : Result A × World) → r.1.db ≡ w.db → (answer code failure r).1.db ≡ w.db
      go (ok a, v) h = h
      go (err e, v) h = h

pub guarded_same :
    {A : Type 0} (message : String) (h : World → Reply A × World) (w : World)
    → (h w).1.db ≡ w.db
    → (guarded message h w).1.db ≡ w.db
unfolding guarded
guarded_same message h w same = elim (Bool-cases (str_eq message "")) [
  | inl free ↦ rw free same
  | inr stopped ↦ rw stopped refl
]

pub with_body_same :
    {A B : Type 0} (body : Option B) (h : B → World → Reply A × World) (w : World)
    → ((b : B) → (h b w).1.db ≡ w.db)
    → (with_body body h w).1.db ≡ w.db
unfolding with_body
with_body_same none h w same = refl
with_body_same (some b) h w same = same b

abbrev pub Spares : {A : Type 0} → Handler A → World → Type 0
Spares h w = (h w).1.db ≡ w.db

module _ (w : World) where
  with_transaction-Spares :
      {A B : Type 0} (code : ℕ) (failure : Error → ℕ) (m : M A) (f : A → B)
      → ((I : Db → Type 0) → Keeps I m)
      → Spares (respond code failure (with_transaction m >>= λ a. pure (f a))) w
  with_transaction-Spares code failure m f keeps =
      respond_same code failure _
        (λ I. in_transaction I (λ a. pure (f a)) (keeps I) (λ a. pure-Keeps I (f a))) w

  lookups-Spares :
      (parse : String → Option Nodes) (render : Nodes → Option String)
      (client_url user_id id : String)
      → Spares (get_article parse render client_url user_id id) w
        × (Spares (get_source id) w
            × (Spares (get_feed user_id id) w × Spares (check_for_new_articles user_id) w))
  unfolding get_article get_source get_feed check_for_new_articles Sources.find_by_id
      find_source_by_id ArticlesFeeds.count_unread_by_feed_for_user
      count_unread_articles_by_feed_for_user
  lookups-Spares parse render client_url user_id id = (
    guarded_same _ _ w (with_transaction-Spares _ _ _ _ (λ I. article_keeps I id user_id)),
    (
      guarded_same _ _ w
          (with_transaction-Spares _ _ _ _ (λ I. map_err-Keeps I _ (read-Keeps I _))),
      (
        guarded_same _ _ w (with_transaction-Spares _ _ _ _ (λ I. feed_keeps I id user_id)),
        respond_same _ _ _ (λ I. with_transaction-Keeps I (Keeps-Leads I (read-Keeps I _))) w,
      ),
    ),
  )

  lists-Spares :
      (lower : String → String) (atoi : String → Option ℤ) (parse : String → Option Nodes)
      (render : Nodes → Option String) (client_url user_id url name page page_size : String)
      → Spares (list_articles lower atoi parse render client_url url page page_size) w
        × (Spares (list_sources lower atoi url name page page_size) w
            × Spares (list_feeds lower atoi user_id name page page_size) w)
  unfolding list_articles list_sources list_feeds find_articles ListControllers.list_articles
      ListControllers.list_sources ListControllers.list_feeds Listing.list_articles
      Listing.list_sources Listing.list_feeds_by_user Listing.count_articles Listing.count_sources
      Listing.count_feeds_by_user
  lists-Spares lower atoi parse render client_url user_id url name page page_size = (
    with_transaction-Spares _ _ _ _ (λ I.
        >>=-Keeps I
          (>>=-Keeps I (read-Keeps I _)
            (λ rows. >>=-Keeps I (read-Keeps I _) (λ n. pure-Keeps I _)))
          (λ found. >>=-Keeps I (links_keep I _) (λ links. pure-Keeps I _))),
    (
      with_transaction-Spares _ _ _ _ (λ I.
          >>=-Keeps I (read-Keeps I _)
            (λ rows. >>=-Keeps I (read-Keeps I _) (λ n. pure-Keeps I _))),
      with_transaction-Spares _ _ _ _ (λ I.
          >>=-Keeps I (read-Keeps I _)
            (λ rows. >>=-Keeps I (read-Keeps I _) (λ n. pure-Keeps I _))),
    ),
  )

  feed_articles-Spares :
      (parse : String → Option Nodes) (render : Nodes → Option String) (atoi : String → Option ℤ)
      (parse_time : String → Option ℕ) (client_url user_id : String) (q : FeedArticlesQuery)
      → Spares (feed_articles parse render atoi parse_time client_url user_id q) w
  unfolding feed_articles answer_rows
  feed_articles-Spares parse render atoi parse_time client_url user_id q = guarded_same _ _ w (
      with_body_same _ _ w (λ is_read. with_body_same _ _ w (λ start.
        with_body_same _ _ w
          (λ end. with_transaction-Spares _ _ _ _ (λ I. found_keeps I q.id user_id _)))))

  suggest-Spares :
      (lower_char : Char → Char) (atoi : String → Option ℤ) (window_days : ℤ)
      (keywords limit : String)
      → Spares (suggest lower_char atoi window_days keywords limit) w
  unfolding suggest
  suggest-Spares lower_char atoi window_days keywords limit = with_body_same _ _ w (λ selected.
      respond_same _ _ _
        (λ I. >>=-Keeps I (now_is-Keeps I) (λ now.
          with_transaction-Keeps I (Keeps-Leads I (suggestions_keep I lower_char selected _ _))))
        w)

  -- Whatever statements fail, the handlers that only read leave the database as it was.
  pub reads-Spares :
      (lower : String → String) (atoi : String → Option ℤ) (parse_time : String → Option ℕ)
      (parse : String → Option Nodes) (render : Nodes → Option String)
      (client_url user_id id url name page page_size : String) (q : FeedArticlesQuery)
      (lower_char : Char → Char) (window_days : ℤ) (keywords limit : String)
      → Spares (get_article parse render client_url user_id id) w
        × (Spares (get_source id) w
            × (Spares (get_feed user_id id) w
                × (Spares (check_for_new_articles user_id) w
                    × (Spares
                          (list_articles lower atoi parse render client_url url page page_size)
                          w
                        × (Spares (list_sources lower atoi url name page page_size) w
                            × (Spares (list_feeds lower atoi user_id name page page_size) w
                                × (Spares
                                      (feed_articles parse render atoi parse_time client_url user_id
                                        q)
                                      w
                                    × Spares
                                        (suggest lower_char atoi window_days keywords limit)
                                        w)))))))
  reads-Spares lower atoi parse_time parse render client_url user_id id url name page page_size q
        lower_char window_days keywords limit =
      let lookups = lookups-Spares parse render client_url user_id id in
      let lists = lists-Spares lower atoi parse render client_url user_id url name page page_size in
      let feed = feed_articles-Spares parse render atoi parse_time client_url user_id q in
      let suggested = suggest-Spares lower_char atoi window_days keywords limit in
      (
        lookups.0,
        (
          lookups.1.0,
          (lookups.1.1.0, (lookups.1.1.1, (lists.0, (lists.1.0, (lists.1.1, (feed, suggested)))))),
        ),
      )
