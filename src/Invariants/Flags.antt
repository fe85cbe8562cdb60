-- ===== src/Invariants/Flags.antt =====
-- The columns `status` and `removed_at`, on which the queries test that a row is active: they
-- select `status = TRUE AND removed_at IS NULL`, and the removals select `removed_at IS NULL`.
use Prim.Native.Char.{Char}
use news_feed_backend.Prelude.{
  ℕ, String, ◌≡◌, refl, Bool, List, All, All-update_where, is_none, Option,
}
use news_feed_backend.Store.{Article, Source, Feed, User, RefreshToken, UserPreference, Db, World}
use news_feed_backend.History.{Event, run}
use news_feed_backend.History.Changes.{Survives}
use news_feed_backend.History.Lift.{preserves}
use news_feed_backend.History.Runs.{run-keeps}

-- A row is marked inactive exactly when it is removed.
abbrev pub Agree : Bool → Option ℕ → Type 0
Agree status removed_at = status ≡ is_none removed_at

-- The columns `status` and `removed_at` agree in every table that has them.
pub record HasAgreeingFlags (db : Db) : Type 0 where
  pub articles : All (λ (x : Article). Agree x.status x.removed_at) db.articles
  pub sources : All (λ (x : Source). Agree x.status x.removed_at) db.sources
  pub feeds : All (λ (x : Feed). Agree x.status x.removed_at) db.feeds
  pub refresh_tokens : All (λ (x : RefreshToken). Agree x.status x.removed_at) db.refresh_tokens
  pub users : All (λ (x : User). Agree x.status x.removed_at) db.users
  pub user_preferences :
      All (λ (x : UserPreference). Agree x.status x.removed_at) db.user_preferences

survives : Survives HasAgreeingFlags
survives = record {
  source_added = λ now p db free h. record {
    articles = h.articles;
    sources = (refl, h.sources);
    feeds = h.feeds;
    refresh_tokens = h.refresh_tokens;
    users = h.users;
    user_preferences = h.user_preferences;
  };
  source_changed = λ now p db free h. record {
    articles = h.articles;
    sources = All-update_where _ _ _ _ (λ x k hit. k) (λ x k miss. k) _ h.sources;
    feeds = h.feeds;
    refresh_tokens = h.refresh_tokens;
    users = h.users;
    user_preferences = h.user_preferences;
  };
  source_gone = λ n n' n'' id db h. record {
    articles = All-update_where _ _ _ _ (λ x k hit. refl) (λ x k miss. k) _ h.articles;
    sources = All-update_where _ _ _ _ (λ x k hit. refl) (λ x k miss. k) _ h.sources;
    feeds = h.feeds;
    refresh_tokens = h.refresh_tokens;
    users = h.users;
    user_preferences = h.user_preferences;
  };
  article_added = λ now p db found free h. record {
    articles = (refl, h.articles);
    sources = h.sources;
    feeds = h.feeds;
    refresh_tokens = h.refresh_tokens;
    users = h.users;
    user_preferences = h.user_preferences;
  };
  article_changed = λ now p db free h. record {
    articles = All-update_where _ _ _ _ (λ x k hit. k) (λ x k miss. k) _ h.articles;
    sources = h.sources;
    feeds = h.feeds;
    refresh_tokens = h.refresh_tokens;
    users = h.users;
    user_preferences = h.user_preferences;
  };
  content_changed = λ now content id db h. record {
    articles = All-update_where _ _ _ _ (λ x k hit. k) (λ x k miss. k) _ h.articles;
    sources = h.sources;
    feeds = h.feeds;
    refresh_tokens = h.refresh_tokens;
    users = h.users;
    user_preferences = h.user_preferences;
  };
  article_gone = λ now id db h. record {
    articles = All-update_where _ _ _ _ (λ x k hit. refl) (λ x k miss. k) _ h.articles;
    sources = h.sources;
    feeds = h.feeds;
    refresh_tokens = h.refresh_tokens;
    users = h.users;
    user_preferences = h.user_preferences;
  };
  link_added = λ now id article_id href db there h. record {
    articles = h.articles;
    sources = h.sources;
    feeds = h.feeds;
    refresh_tokens = h.refresh_tokens;
    users = h.users;
    user_preferences = h.user_preferences;
  };
  link_changed = λ now new_href old_href db h. record {
    articles = h.articles;
    sources = h.sources;
    feeds = h.feeds;
    refresh_tokens = h.refresh_tokens;
    users = h.users;
    user_preferences = h.user_preferences;
  };
  feed_added = λ now p db few free there h. record {
    articles = h.articles;
    sources = h.sources;
    feeds = (refl, h.feeds);
    refresh_tokens = h.refresh_tokens;
    users = h.users;
    user_preferences = h.user_preferences;
  };
  feed_changed = λ now p db h. record {
    articles = h.articles;
    sources = h.sources;
    feeds = All-update_where _ _ _ _ (λ x k hit. k) (λ x k miss. k) _ h.feeds;
    refresh_tokens = h.refresh_tokens;
    users = h.users;
    user_preferences = h.user_preferences;
  };
  feed_gone = λ now id user_id db h. record {
    articles = h.articles;
    sources = h.sources;
    feeds = All-update_where _ _ _ _ (λ x k hit. refl) (λ x k miss. k) _ h.feeds;
    refresh_tokens = h.refresh_tokens;
    users = h.users;
    user_preferences = h.user_preferences;
  };
  associated = λ now id article_id feed_id db h. record {
    articles = h.articles;
    sources = h.sources;
    feeds = h.feeds;
    refresh_tokens = h.refresh_tokens;
    users = h.users;
    user_preferences = h.user_preferences;
  };
  marked = λ now article_id user_id db h. record {
    articles = h.articles;
    sources = h.sources;
    feeds = h.feeds;
    refresh_tokens = h.refresh_tokens;
    users = h.users;
    user_preferences = h.user_preferences;
  };
  token_added = λ now id user_id at db free revoked h. record {
    articles = h.articles;
    sources = h.sources;
    feeds = h.feeds;
    refresh_tokens = (refl, h.refresh_tokens);
    users = h.users;
    user_preferences = h.user_preferences;
  };
  token_extended = λ now id at db h. record {
    articles = h.articles;
    sources = h.sources;
    feeds = h.feeds;
    refresh_tokens = All-update_where _ _ _ _ (λ x k hit. k) (λ x k miss. k) _ h.refresh_tokens;
    users = h.users;
    user_preferences = h.user_preferences;
  };
  token_gone = λ now id db h. record {
    articles = h.articles;
    sources = h.sources;
    feeds = h.feeds;
    refresh_tokens = All-update_where _ _ _ _ (λ x k hit. refl) (λ x k miss. k) _ h.refresh_tokens;
    users = h.users;
    user_preferences = h.user_preferences;
  };
  tokens_gone = λ now user_id db h. record {
    articles = h.articles;
    sources = h.sources;
    feeds = h.feeds;
    refresh_tokens = All-update_where _ _ _ _ (λ x k hit. refl) (λ x k miss. k) _ h.refresh_tokens;
    users = h.users;
    user_preferences = h.user_preferences;
  };
  user_added = λ n n' p q db free same h. record {
    articles = h.articles;
    sources = h.sources;
    feeds = h.feeds;
    refresh_tokens = h.refresh_tokens;
    users = (refl, h.users);
    user_preferences = (refl, h.user_preferences);
  };
  user_logged_in = λ now id db h. record {
    articles = h.articles;
    sources = h.sources;
    feeds = h.feeds;
    refresh_tokens = h.refresh_tokens;
    users = All-update_where _ _ _ _ (λ x k hit. k) (λ x k miss. k) _ h.users;
    user_preferences = h.user_preferences;
  };
  user_seen = λ now id db h. record {
    articles = h.articles;
    sources = h.sources;
    feeds = h.feeds;
    refresh_tokens = h.refresh_tokens;
    users = All-update_where _ _ _ _ (λ x k hit. k) (λ x k miss. k) _ h.users;
    user_preferences = h.user_preferences;
  };
  user_gone = λ n n' n'' n''' id db h. record {
    articles = h.articles;
    sources = h.sources;
    feeds = All-update_where _ _ _ _ (λ x k hit. refl) (λ x k miss. k) _ h.feeds;
    refresh_tokens = All-update_where _ _ _ _ (λ x k hit. refl) (λ x k miss. k) _ h.refresh_tokens;
    users = All-update_where _ _ _ _ (λ x k hit. refl) (λ x k miss. k) _ h.users;
    user_preferences =
        All-update_where _ _ _ _ (λ x k hit. refl) (λ x k miss. k) _ h.user_preferences;
  };
  preferences_changed = λ now language personality user_id db h. record {
    articles = h.articles;
    sources = h.sources;
    feeds = h.feeds;
    refresh_tokens = h.refresh_tokens;
    users = h.users;
    user_preferences = All-update_where _ _ _ _ (λ x k hit. k) (λ x k miss. k) _ h.user_preferences;
  };
  system_changed = λ ss db h. record {
    articles = h.articles;
    sources = h.sources;
    feeds = h.feeds;
    refresh_tokens = h.refresh_tokens;
    users = h.users;
    user_preferences = h.user_preferences;
  };
}

-- After every history of requests and sweeps of the scheduler, a row of any table is marked active
-- exactly when it is not removed, if this was so before. So no removal misses an active row, and
-- none meets a row that the queries do not see.
pub run-HasAgreeingFlags :
    (lower : Char → Char) (valid_url : String → Bool) (expiry lifetime : ℕ) (es : List (ℕ × Event))
    (w : World)
    → HasAgreeingFlags w.db
    → HasAgreeingFlags (run lower valid_url expiry lifetime es w).db
run-HasAgreeingFlags lower valid_url expiry lifetime =
    run-keeps lower valid_url expiry lifetime (preserves lower survives)
