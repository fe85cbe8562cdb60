-- ===== src/Discovery/Lookup.antt =====
-- alreadyExists and resolveInternalURLs of services/discovery/processor.go.
use Prim.Native.String
use news_feed_backend.Prelude.{String, Bool, true, false, List, [], ◌∷◌}
use news_feed_backend.Store.{
  Article, Error, Result, ok, err, M, pure, raise, ◌>>=◌, attempt, with_transaction,
  article_not_found,
}
use news_feed_backend.Controllers.Articles

-- errors.Is(err, controllers.ErrArticleNotFound)
abbrev pub is_article_not_found : Error → Bool
is_article_not_found article_not_found = true
is_article_not_found _ = false

abbrev pub false_if : Bool → Error → M Bool
false_if true e = pure false
false_if false e = raise e

abbrev pub exists_of : Result Article → M Bool
exists_of (ok a) = pure true
exists_of (err e) = false_if (is_article_not_found e) e

-- The body of the transaction of alreadyExists.
unfoldable pub look_up : String → M Bool
look_up url = do found ← attempt (Articles.find_by_url_original url); exists_of found

unfoldable pub already_exists : String → M Bool
unfolding look_up
already_exists url = with_transaction (look_up url)

-- An entry of the map: an href of the body, and the page of the article that it leads to.
pub record Mapping : Type 0 where
  pub href : String
  pub internal : String

abbrev pub with_entry : String → String → Article → List Mapping → List Mapping
with_entry client_url href a rest =
    record { href = href; internal = String.◌++◌ client_url (String.◌++◌ "/articles/" a.id) } ∷ rest

abbrev pub rest_or : Bool → Error → M (List Mapping) → M (List Mapping)
rest_or true e rest = rest
rest_or false e rest = raise e

-- The switch of the loop, and the rest of the loop.
abbrev pub entry_of : String → String → Result Article → M (List Mapping) → M (List Mapping)
entry_of client_url href (ok a) rest = do
  entries ← rest
  pure (with_entry client_url href a entries)
entry_of client_url href (err e) rest = rest_or (is_article_not_found e) e rest

-- The body of the transaction of resolveInternalURLs.
unfoldable pub resolve_hrefs : String → List String → M (List Mapping)
resolve_hrefs client_url [] = pure []
resolve_hrefs client_url (href ∷ hrefs) = do
  found ← attempt (Articles.find_by_url_original href)
  entry_of client_url href found (resolve_hrefs client_url hrefs)

unfoldable pub resolve_internal_urls : String → List String → M (List Mapping)
unfolding resolve_hrefs
resolve_internal_urls client_url hrefs = with_transaction (resolve_hrefs client_url hrefs)
