-- ===== src/Invariants/FeedLimit.antt =====
-- The limit of active feeds: Create of services/controllers/feeds.go.
use Prim.Native.Char.{Char}
use news_feed_backend.Prelude.{
  ℕ, ◌≤◌, String, str_eq, str_eq_iff, ◌≡◌, ap, refl, sym, subst, Bool, true, List, ◌∷◌, count_where,
  count_where-update_where, count_where-update_where_le, arith, Bool-cases, inl, inr, ltb, ltb→lt,
}
use news_feed_backend.Store.{Feed, Db, World}
use news_feed_backend.History.{Event, run}
use news_feed_backend.History.Changes.{Survives}
use news_feed_backend.History.Lift.{preserves}
use news_feed_backend.History.Runs.{run-keeps}
use news_feed_backend.Queries.Feeds.{
  is_active_feed_of, new_feed, is_unremoved_feed, is_unremoved_feed_of, removed_feed,
}
use news_feed_backend.Controllers.Feeds.{feed_max_per_user}

abbrev pub HasFewFeeds : Db → Type 0
HasFewFeeds db =
    (user_id : String) → count_where (is_active_feed_of user_id) db.feeds ≤ feed_max_per_user

add_one :
    (f : Feed) (fs : List Feed) (user_id : String)
    → ltb (count_where (is_active_feed_of f.user_id) fs) 5 ≡ true
    → count_where (is_active_feed_of user_id) fs ≤ 5
    → count_where (is_active_feed_of user_id) (f ∷ fs) ≤ 5
unfolding count_where
add_one f fs user_id few h = elim (Bool-cases (str_eq f.user_id user_id)) [
  | inl same ↦ ground (
    arith,
    ltb→lt _ _ few,
    ap (λ u. count_where (is_active_feed_of u) fs) ((str_eq_iff f.user_id user_id).0 same),
  )
  | inr other ↦ ground arith
]

survives : Survives HasFewFeeds
survives = record {
  source_added = λ now p db free h. h;
  source_changed = λ now p db free h. h;
  source_gone = λ n n' n'' id db h. h;
  article_added = λ now p db found free h. h;
  article_changed = λ now p db free h. h;
  content_changed = λ now content id db h. h;
  article_gone = λ now id db h. h;
  link_added = λ now id article_id href db there h. h;
  link_changed = λ now new_href old_href db h. h;
  feed_added = λ now p db few free there h. λ u. add_one (new_feed now p) db.feeds u few (h u);
  feed_changed = λ now p db h.
      λ u. subst (λ n. n ≤ 5) (sym (count_where-update_where _ _ _ (λ f hit. refl) db.feeds)) (h u);
  feed_gone = λ now id user_id db h. λ u. omega (
    arith,
    h u,
    count_where-update_where_le (is_active_feed_of u) (is_unremoved_feed id user_id)
        (removed_feed now) (λ f hit k. ground arith) db.feeds,
  );
  associated = λ now id article_id feed_id db h. h;
  marked = λ now article_id user_id db h. h;
  token_added = λ now id user_id at db free revoked h. h;
  token_extended = λ now id at db h. h;
  token_gone = λ now id db h. h;
  tokens_gone = λ now user_id db h. h;
  user_added = λ n n' p q db free same h. h;
  user_logged_in = λ now id db h. h;
  user_seen = λ now id db h. h;
  user_gone = λ n n' n'' n''' id db h. λ u. omega (
    arith,
    h u,
    count_where-update_where_le (is_active_feed_of u) (is_unremoved_feed_of id) (removed_feed n''')
        (λ f hit k. ground arith) db.feeds,
  );
  preferences_changed = λ now language personality user_id db h. h;
  system_changed = λ ss db h. h;
}

-- After every history of requests and sweeps of the scheduler, one after another, no user has more
-- than the five active feeds that schemas.FeedMaxPerUser allows, if this was so before.
pub run-HasFewFeeds :
    (lower : Char → Char) (valid_url : String → Bool) (expiry lifetime : ℕ) (es : List (ℕ × Event))
    (w : World)
    → HasFewFeeds w.db
    → HasFewFeeds (run lower valid_url expiry lifetime es w).db
run-HasFewFeeds lower valid_url expiry lifetime =
    run-keeps lower valid_url expiry lifetime (preserves lower survives)
