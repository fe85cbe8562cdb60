-- ===== src/Reading/ArticleLists.antt =====
-- ListArticles, as Refinement has it of the other lists: the content that a page shows depends on
-- the links of the page, so a client looks at the rest of a document.
use news_feed_backend.Prelude.{
  ℕ, ◌+◌, ◌≤◌, String, ◌≡◌, refl, ap, Option, some, List, [], ◌∷◌, map, length, select, exists,
  arith, str_eq, Bool,
}
use news_feed_backend.Prelude.Int.{ℤ, pos}
use news_feed_backend.Store.{
  Article, ArticleOutboundLink, Db, with_transaction, begun, finish, committed, query, read,
  answered,
}
use news_feed_backend.Pagination.{Response, rows_of, max_int32, max_page_size}
use news_feed_backend.Queries.Order.{comes_first, sorted, windowed}
use news_feed_backend.Queries.OutboundLinks.{list_article_outbound_links_by_article_ids}
use news_feed_backend.Queries.Listing
use news_feed_backend.Queries.Listing.{article_key, is_listed_article}
use news_feed_backend.Controllers.Filters.{nullable_string}
use news_feed_backend.Controllers.Listing as ListControllers
use news_feed_backend.Controllers.OutboundLinks.{list_by_article_ids}
use news_feed_backend.Outbound.Anchors.{Nodes}
use news_feed_backend.Endpoints.Reply.{respond, Handler}
use news_feed_backend.Outcomes.Tokens.{calm}
use news_feed_backend.Reading.Responses.{ArticleResponse, shown_article, to_article_response}
use news_feed_backend.Reading.Lists.{list_articles, find_articles, article_ids}
use news_feed_backend.Reading.Sorting.{length-sorted}
use news_feed_backend.Reading.Client.{
  Spells, Answers, ask_pages, pages_of, ask_all_pages, parse_params_spelled,
}
use news_feed_backend.Reading.Refinement.{Lists, sorted-Lists, count_lem}

abbrev pub without_content : ArticleResponse → ArticleResponse
without_content d = record d { content = "" }

-- The links of the articles with the ids.
abbrev pub links_among : Db → List String → List ArticleOutboundLink
links_among db ids =
    select (λ (l : ArticleOutboundLink). exists (λ (id : String). str_eq l.article_id id) ids)
      db.article_outbound_links

module _ (lower : String → String) (atoi : String → Option ℤ) (spell : ℕ → String)
    (spells : Spells atoi spell) (db : Db) (now size : ℕ) (low : 1 ≤ size)
    (high : size ≤ max_page_size) (parse : String → Option Nodes) (render : Nodes → Option String)
    (client_url url : String) where
  abbrev article_test : Article → Bool
  article_test = is_listed_article lower (nullable_string url)

  abbrev ask_articles : ℕ → Handler (Response ArticleResponse)
  ask_articles k = list_articles lower atoi parse render client_url url (spell k) (spell size)

  abbrev plain : Article → ArticleResponse
  plain a = without_content (to_article_response a)

  view_lem :
      (links : List ArticleOutboundLink) (page : List Article)
      → map without_content (map (shown_article parse render links client_url) page)
        ≡ map plain page
  view_lem links [] = refl
  view_lem links (a ∷ rest) = ap (λ r. plain a ∷ r) (view_lem links rest)

  articles_answer :
      Answers without_content plain
        (sorted article_key (select article_test db.articles))
        size
        ask_articles
        (calm db now [])
  unfolding list_articles find_articles ListControllers.list_articles Listing.list_articles
      Listing.count_articles list_by_article_ids list_article_outbound_links_by_article_ids respond
      with_transaction begun finish committed query read answered windowed rows_of
  articles_answer k [] one near e = (
    [],
    (
      rw
          (
            parse_params_spelled atoi spell spells size k low high one near,
            e,
            count_lem article_test article_key db.articles,
          )
          refl,
      refl,
    ),
  )
  articles_answer k (a ∷ rest) one near e =
      let links = links_among db (article_ids (a ∷ rest)) in
      (
        map (shown_article parse render links client_url) (a ∷ rest),
        (
          rw
              (
                parse_params_spelled atoi spell spells size k low high one near,
                e,
                count_lem article_test article_key db.articles,
              )
              refl,
          view_lem links (a ∷ rest),
        ),
      )

  -- As for ListSources: the pages of ListArticles put together are, but for the content, the active
  -- articles that pass the filter, each once, the newest first.
  pub list_articles-Lists :
      (n : ℕ)
      → length (select article_test db.articles) + size ≤ max_int32
      → pages_of (ask_articles 1 (calm db now [])).0 ≡ some (pos n)
      → (rows : List Article) × (Lists article_test article_key db.articles rows
          × (ask_pages without_content ask_articles n (calm db now []) ≡ some (map plain rows)))
  list_articles-Lists n near told =
      let rows = sorted article_key (select article_test db.articles) in
      let few : length rows + size ≤ max_int32 =
        omega (
          arith,
          near,
          length-sorted (comes_first article_key) (select article_test db.articles),
        ) in
      (
        rows,
        (
          sorted-Lists article_test article_key db.articles,
          ask_all_pages without_content plain rows size ask_articles (calm db now [])
              articles_answer n low high few told,
        ),
      )
