-- ===== src/Queries/OutboundLinks.antt =====
-- sqlc/article_outbound_links.sql.go
use Prim.Native.String
use news_feed_backend.Prelude.{
  ℕ, String, str_eq, Bool, not, ◌&&◌, Option, none, some, List, ◌∷◌, is_none, if◌then◌else◌,
  find_first, exists, update_where, select,
}
use news_feed_backend.Store.{
  Article, ArticleOutboundLink, Db, Result, ok, err, M, read, query, exec, unique_violation,
  fk_violation,
}

abbrev pub new_link : ℕ → String → String → String → ArticleOutboundLink
new_link now id article_id href = record {
  id = id;
  article_id = article_id;
  href = href;
  created_at = now;
  modified_at = none;
}

unfoldable pub insert_link : String → String → String → ℕ → Db → Result ArticleOutboundLink × Db
insert_link id article_id href now db =
    if exists (λ (l : ArticleOutboundLink). str_eq l.id id) db.article_outbound_links
    then (err unique_violation, db)
    else if exists (λ (a : Article). str_eq a.id article_id) db.articles
    then (
      ok (new_link now id article_id href),
      record db {
        article_outbound_links = new_link now id article_id href ∷ db.article_outbound_links;
      },
    )
    else (err fk_violation, db)

unfoldable pub create_article_outbound_link : String → String → String → M ArticleOutboundLink
unfolding insert_link
create_article_outbound_link id article_id href = query (insert_link id article_id href)

unfoldable pub delete_article_outbound_links_by_article_id : String → M (Unit {0})
delete_article_outbound_links_by_article_id article_id = exec (λ now db. record db {
  article_outbound_links =
      select (λ (l : ArticleOutboundLink). not (str_eq l.article_id article_id))
        db.article_outbound_links;
})

unfoldable pub list_article_outbound_links_by_article_ids :
    List String → M (List ArticleOutboundLink)
list_article_outbound_links_by_article_ids ids = read (λ now db. ok (
    select (λ (l : ArticleOutboundLink). exists (λ (id : String). str_eq l.article_id id) ids)
      db.article_outbound_links))

abbrev pub points_to : String → ArticleOutboundLink → Bool
points_to href l = str_eq l.href href

abbrev pub repointed : ℕ → String → ArticleOutboundLink → ArticleOutboundLink
repointed now href l = record l { href = href; modified_at = some now }

unfoldable pub retarget_article_outbound_links_by_href : String → String → M (Unit {0})
retarget_article_outbound_links_by_href new_href old_href = exec (λ now db. record db {
  article_outbound_links =
      update_where (points_to old_href) (repointed now new_href) db.article_outbound_links;
})

-- The row of `articles` that the UPDATE ... FROM joins to a link. The ids of articles are unique,
-- so there is one at most.
abbrev pub joins : String → String → ArticleOutboundLink → Article → Bool
joins source_id href_prefix l a =
    str_eq a.source_id source_id
    && is_none a.removed_at
    && str_eq l.href (String.◌++◌ href_prefix a.id)

abbrev pub repointed_to : ℕ → Option Article → ArticleOutboundLink → ArticleOutboundLink
repointed_to now none l = l
repointed_to now (some a) l = repointed now a.url_original l

unfoldable pub retarget_article_outbound_links_by_source_id : String → String → M (Unit {0})
retarget_article_outbound_links_by_source_id source_id href_prefix = exec (λ now db. record db {
  article_outbound_links =
      update_where (λ (l : ArticleOutboundLink). exists (joins source_id href_prefix l) db.articles)
        (λ (l : ArticleOutboundLink).
          repointed_to now (find_first (joins source_id href_prefix l) db.articles) l)
        db.article_outbound_links;
})
