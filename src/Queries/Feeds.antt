-- ===== src/Queries/Feeds.antt =====
-- sqlc/feeds.sql.go. The lists are in Listing.
use news_feed_backend.Prelude.{
  ℕ, ◌+◌, ◌*◌, String, str_eq, Bool, true, false, not, ◌&&◌, ◌||◌, Option, none, some, List, [],
  ◌∷◌, ltb, ◌==◌, is_none, if◌then◌else◌, find_first, exists, update_where, count_where,
}
use news_feed_backend.Prelude.Int.{ℤ, pos, negsuc}
use news_feed_backend.Store.{
  Feed, User, Db, live, Result, ok, err, M, read, query, exec, one, no_rows, unique_violation,
  fk_violation,
}

abbrev pub is_active_feed_of : String → Feed → Bool
is_active_feed_of user_id f = str_eq f.user_id user_id && live f.status f.removed_at

unfoldable pub count_active_feeds_by_user : String → M ℕ
count_active_feeds_by_user user_id =
    read (λ now db. ok (count_where (is_active_feed_of user_id) db.feeds))

pub record CreateFeedParams : Type 0 where
  pub id : String
  pub name : String
  pub keywords : List String
  pub user_id : String

abbrev pub new_feed : ℕ → CreateFeedParams → Feed
new_feed now p = record {
  id = p.id;
  status = true;
  name = p.name;
  keywords = p.keywords;
  user_id = p.user_id;
  created_at = now;
  modified_at = none;
  removed_at = none;
}

unfoldable pub insert_feed : CreateFeedParams → ℕ → Db → Result Feed × Db
insert_feed p now db =
    if exists (λ (f : Feed). str_eq f.id p.id) db.feeds
    then (err unique_violation, db)
    else if exists (λ (u : User). str_eq u.id p.user_id) db.users
    then (ok (new_feed now p), record db { feeds = new_feed now p ∷ db.feeds })
    else (err fk_violation, db)

unfoldable pub create_feed : CreateFeedParams → M Feed
unfolding insert_feed
create_feed p = query (insert_feed p)

abbrev pub is_active_feed : String → String → Feed → Bool
is_active_feed id user_id f =
    str_eq f.id id && (str_eq f.user_id user_id && live f.status f.removed_at)

unfoldable pub find_feed_by_id_and_user : String → String → M Feed
find_feed_by_id_and_user id user_id =
    read (λ now db. one (find_first (is_active_feed id user_id) db.feeds))

pub record UpdateFeedParams : Type 0 where
  pub name : String
  pub keywords : List String
  pub id : String
  pub user_id : String

abbrev pub updated_feed : ℕ → UpdateFeedParams → Feed → Feed
updated_feed now p f = record f { name = p.name; keywords = p.keywords; modified_at = some now }

unfoldable pub change_feed : UpdateFeedParams → ℕ → Db → Option Feed → Result Feed × Db
change_feed p now db none = (err no_rows, db)
change_feed p now db (some f) = (
  ok (updated_feed now p f),
  record db { feeds = update_where (is_active_feed p.id p.user_id) (updated_feed now p) db.feeds },
)

unfoldable pub update_feed_by_id_and_user : UpdateFeedParams → M Feed
unfolding change_feed
update_feed_by_id_and_user p =
    query (λ now db. change_feed p now db (find_first (is_active_feed p.id p.user_id) db.feeds))

abbrev pub removed_feed : ℕ → Feed → Feed
removed_feed now f = record f { status = false; removed_at = some now; modified_at = some now }

abbrev pub is_unremoved_feed : String → String → Feed → Bool
is_unremoved_feed id user_id f =
    str_eq f.id id && (str_eq f.user_id user_id && is_none f.removed_at)

unfoldable pub soft_delete_feed_by_id_and_user : String → String → M (Unit {0})
soft_delete_feed_by_id_and_user id user_id = exec (λ now db. record db {
  feeds = update_where (is_unremoved_feed id user_id) (removed_feed now) db.feeds;
})

abbrev pub is_unremoved_feed_of : String → Feed → Bool
is_unremoved_feed_of user_id f = str_eq f.user_id user_id && is_none f.removed_at

unfoldable pub soft_delete_feeds_by_user : String → M (Unit {0})
soft_delete_feeds_by_user user_id = exec (λ now db. record db {
  feeds = update_where (is_unremoved_feed_of user_id) (removed_feed now) db.feeds;
})

-- make_interval(days => 1), in microseconds.
abbrev pub day : ℕ
day = 86_400_000_000

-- `last_active_at > CURRENT_TIMESTAMP - make_interval(days => n)`, written without subtraction.
abbrev pub seen_within : ℤ → ℕ → ℕ → Bool
seen_within (pos n) now last_active_at = ltb now (last_active_at + n * day)
seen_within (negsuc n) now last_active_at = ltb (now + (n + 1) * day) last_active_at

abbrev pub is_disabled : ℤ → Bool
is_disabled (pos n) = false
is_disabled (negsuc n) = n == 0

-- The user that a feed's row joins.
abbrev pub is_seen_owner : ℤ → ℕ → Feed → User → Bool
is_seen_owner inactive_days now f u =
    str_eq u.id f.user_id
    && (live u.status u.removed_at
        && (is_disabled inactive_days || seen_within inactive_days now u.last_active_at))

abbrev pub carries : List String → String → Bool
carries keywords k = exists (λ (x : String). str_eq x k) keywords

-- COUNT(DISTINCT fk.value) over the keywords of the feed that the article has too.
unfoldable pub overlap : List String → List String → ℕ
overlap article_keywords [] = 0
overlap article_keywords (k ∷ ks) =
    if carries article_keywords k && not (carries ks k)
    then overlap article_keywords ks + 1
    else overlap article_keywords ks

pub record CandidateRow : Type 0 where
  pub feed : Feed
  pub overlap_count : ℕ

-- A feed gives a row if it is active, its owner is, and they share a keyword with the article.
unfoldable pub candidate_rows : List String → ℤ → ℕ → List User → List Feed → List CandidateRow
candidate_rows keywords inactive_days now users [] = []
candidate_rows keywords inactive_days now users (f ∷ fs) =
    let rest = candidate_rows keywords inactive_days now users fs in
    let count = overlap keywords f.keywords in
    if live f.status f.removed_at
      && (exists (is_seen_owner inactive_days now f) users && ltb 0 count)
    then record { feed = f; overlap_count = count } ∷ rest
    else rest

unfoldable pub find_candidate_feeds_by_keywords : ℤ → List String → M (List CandidateRow)
unfolding candidate_rows
find_candidate_feeds_by_keywords inactive_days keywords =
    read (λ now db. ok (candidate_rows keywords inactive_days now db.users db.feeds))
