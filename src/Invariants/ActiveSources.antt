-- ===== src/Invariants/ActiveSources.antt =====
-- The articles and their sources: Create and SoftDelete of services/controllers/articles.go and
-- sources.go.
use Prim.Native.Char.{Char}
use news_feed_backend.Prelude.{
  ℕ, String, str_eq, str_eq_left, ◌≡◌, ◌∙◌, refl, Bool, true, false, List, All, All-map,
  All-update_where, exists, exists-cons, exists-update_where, update_where, arith,
}
use news_feed_backend.Store.{Article, Source, Db, World, live}
use news_feed_backend.Queries.Sources.{is_active_source, is_unremoved_source, removed_source}
use news_feed_backend.Queries.Articles.{is_unremoved_of_source, removed_article}
use news_feed_backend.History.{Event, run}
use news_feed_backend.History.Changes.{Survives}
use news_feed_backend.History.Lift.{preserves}
use news_feed_backend.History.Runs.{run-keeps}

-- If the article is live, its source is active.
abbrev pub HasActiveSource : List Source → Article → Type 0
HasActiveSource sources a =
    live a.status a.removed_at ≡ true → exists (is_active_source a.source_id) sources ≡ true

abbrev pub HasActiveSources : Db → Type 0
HasActiveSources db = All (HasActiveSource db.sources) db.articles

removal_spares :
    (now : ℕ) (id source_id : String) (sources : List Source)
    → str_eq source_id id ≡ false
    → exists
        (is_active_source source_id)
        (update_where (is_unremoved_source id) (removed_source now) sources)
      ≡ exists (is_active_source source_id) sources
removal_spares now id source_id sources other =
    exists-update_where (is_active_source source_id) (is_unremoved_source id) (removed_source now)
      (λ s hit. ground (arith, str_eq_left s.id source_id id)) sources

survives : Survives HasActiveSources
survives = record {
  source_added = λ now p db free h. All-map _ _ (λ a k l. exists-cons _ _ _ (k l)) _ h;
  source_changed = λ now p db free h.
      All-map _ _ (λ a k l. exists-update_where _ _ _ (λ s hit. refl) db.sources ∙ k l) _ h;
  source_gone = λ n n' n'' id db h.
      All-update_where (HasActiveSource db.sources)
        (HasActiveSource (update_where (is_unremoved_source id) (removed_source n) db.sources))
        (is_unremoved_of_source id) (removed_article n'') (λ a k hit l. absurd (ground arith))
        (λ a k miss l. removal_spares n id a.source_id db.sources (ground arith) ∙ k l) _ h;
  article_added = λ now p db found free h. ((λ l. found), h);
  article_changed =
      λ now p db free h. All-update_where _ _ _ _ (λ a k hit l. k l) (λ a k miss. k) _ h;
  content_changed =
      λ now content id db h. All-update_where _ _ _ _ (λ a k hit l. k l) (λ a k miss. k) _ h;
  article_gone = λ now id db h.
      All-update_where _ _ _ _ (λ a k hit l. absurd (ground arith)) (λ a k miss. k) _ h;
  link_added = λ now id article_id href db there h. h;
  link_changed = λ now new_href old_href db h. h;
  feed_added = λ now p db few free there h. h;
  feed_changed = λ now p db h. h;
  feed_gone = λ now id user_id db h. h;
  associated = λ now id article_id feed_id db h. h;
  marked = λ now article_id user_id db h. h;
  token_added = λ now id user_id at db free revoked h. h;
  token_extended = λ now id at db h. h;
  token_gone = λ now id db h. h;
  tokens_gone = λ now user_id db h. h;
  user_added = λ n n' p q db free same h. h;
  user_logged_in = λ now id db h. h;
  user_seen = λ now id db h. h;
  user_gone = λ n n' n'' n''' id db h. h;
  preferences_changed = λ now language personality user_id db h. h;
  system_changed = λ ss db h. h;
}

-- After every history of requests and sweeps of the scheduler, each live article still has an
-- active source, if this was so before: an article is created under an active source only, and
-- DELETE of a source removes its articles with it, whatever statements fail on the way.
pub run-HasActiveSources :
    (lower : Char → Char) (valid_url : String → Bool) (expiry lifetime : ℕ) (es : List (ℕ × Event))
    (w : World)
    → HasActiveSources w.db
    → HasActiveSources (run lower valid_url expiry lifetime es w).db
run-HasActiveSources lower valid_url expiry lifetime =
    run-keeps lower valid_url expiry lifetime (preserves lower survives)
