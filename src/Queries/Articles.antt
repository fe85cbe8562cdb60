-- ===== src/Queries/Articles.antt =====
-- sqlc/articles.sql.go. The lists are in Listing, the keyword suggestions in Suggestions.
use news_feed_backend.Prelude.{
  ℕ, String, str_eq, Bool, true, false, not, ◌&&◌, ◌||◌, Option, none, some, List, ◌∷◌, is_none,
  if◌then◌else◌, find_first, exists, update_where,
}
use news_feed_backend.Store.{
  Article, Source, Db, live, Result, ok, err, M, read, query, exec, one, no_rows, unique_violation,
  fk_violation,
}

pub record CreateArticleParams : Type 0 where
  pub id : String
  pub title : String
  pub content : String
  pub url_original : String
  pub keywords : List String
  pub source_id : String
  pub language_original : Option String

-- The primary key, and the unique index over the rows that are not removed.
abbrev pub clashes : CreateArticleParams → Article → Bool
clashes p a = str_eq a.id p.id || (is_none a.removed_at && str_eq a.url_original p.url_original)

abbrev pub new_article : ℕ → CreateArticleParams → Article
new_article now p = record {
  id = p.id;
  status = true;
  title = p.title;
  content = p.content;
  url_original = p.url_original;
  keywords = p.keywords;
  source_id = p.source_id;
  language_original = p.language_original;
  created_at = now;
  modified_at = none;
  removed_at = none;
}

unfoldable pub insert_article : CreateArticleParams → ℕ → Db → Result Article × Db
insert_article p now db =
    if exists (clashes p) db.articles
    then (err unique_violation, db)
    else if exists (λ (s : Source). str_eq s.id p.source_id) db.sources
    then (ok (new_article now p), record db { articles = new_article now p ∷ db.articles })
    else (err fk_violation, db)

unfoldable pub create_article : CreateArticleParams → M Article
unfolding insert_article
create_article p = query (insert_article p)

abbrev pub is_active_article : String → Article → Bool
is_active_article id a = str_eq a.id id && live a.status a.removed_at

unfoldable pub find_article_by_id : String → M Article
find_article_by_id id = read (λ now db. one (find_first (is_active_article id) db.articles))

abbrev pub has_active_url : String → Article → Bool
has_active_url url a = str_eq a.url_original url && live a.status a.removed_at

unfoldable pub find_article_by_url_original : String → M Article
find_article_by_url_original url =
    read (λ now db. one (find_first (has_active_url url) db.articles))

pub record UpdateArticleParams : Type 0 where
  pub id : String
  pub title : String
  pub content : String
  pub url_original : String
  pub keywords : List String
  pub language_original : Option String

-- Another row that holds the new value.
abbrev pub clashes_on_update : UpdateArticleParams → Article → Bool
clashes_on_update p a =
    not (str_eq a.id p.id) && (is_none a.removed_at && str_eq a.url_original p.url_original)

abbrev pub updated_article : ℕ → UpdateArticleParams → Article → Article
updated_article now p a = record a {
  title = p.title;
  content = p.content;
  url_original = p.url_original;
  keywords = p.keywords;
  language_original = p.language_original;
  modified_at = some now;
}

unfoldable pub change_article : UpdateArticleParams → ℕ → Db → Option Article → Result Article × Db
change_article p now db none = (err no_rows, db)
change_article p now db (some a) =
    if exists (clashes_on_update p) db.articles then (err unique_violation, db) else (
      ok (updated_article now p a),
      record db {
        articles = update_where (is_active_article p.id) (updated_article now p) db.articles;
      },
    )

unfoldable pub update_article : UpdateArticleParams → M Article
unfolding change_article
update_article p =
    query (λ now db. change_article p now db (find_first (is_active_article p.id) db.articles))

abbrev pub with_content : ℕ → String → Article → Article
with_content now content a = record a { content = content; modified_at = some now }

unfoldable pub update_article_content : String → String → M (Unit {0})
update_article_content content id = exec (λ now db. record db {
  articles = update_where (is_active_article id) (with_content now content) db.articles;
})

abbrev pub removed_article : ℕ → Article → Article
removed_article now a = record a { status = false; removed_at = some now; modified_at = some now }

abbrev pub is_unremoved_article : String → Article → Bool
is_unremoved_article id a = str_eq a.id id && is_none a.removed_at

unfoldable pub soft_delete_article : String → M (Unit {0})
soft_delete_article id = exec (λ now db. record db {
  articles = update_where (is_unremoved_article id) (removed_article now) db.articles;
})

abbrev pub is_unremoved_of_source : String → Article → Bool
is_unremoved_of_source source_id a = str_eq a.source_id source_id && is_none a.removed_at

unfoldable pub soft_delete_articles_by_source_id : String → M (Unit {0})
soft_delete_articles_by_source_id source_id = exec (λ now db. record db {
  articles = update_where (is_unremoved_of_source source_id) (removed_article now) db.articles;
})
