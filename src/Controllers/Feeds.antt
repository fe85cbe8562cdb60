-- ===== src/Controllers/Feeds.antt =====
-- services/controllers/feeds.go
use Prim.Native.Char.{Char}
use news_feed_backend.Prelude.{ℕ, String, List, [], ◌∷◌, leb, Bool, true, false}
use news_feed_backend.Prelude.Int.{ℤ, pos, negsuc}
use news_feed_backend.Store.{
  Feed, M, pure, raise, ◌>>=◌, map_err, new_uuid, feed_not_found, feed_limit_reached,
}
use news_feed_backend.Queries.Feeds.{
  count_active_feeds_by_user, create_feed, find_feed_by_id_and_user, update_feed_by_id_and_user,
  soft_delete_feed_by_id_and_user, find_candidate_feeds_by_keywords, CandidateRow,
}
use news_feed_backend.Pagination.{to_int32}
use news_feed_backend.Controllers.Errors.{when_missing}
use news_feed_backend.Controllers.Keywords.{encode_keywords, normalize_keywords}

-- schemas.FeedMaxPerUser
abbrev pub feed_max_per_user : ℕ
feed_max_per_user = 5

-- The conversion int32(n) of a number of either sign, which wraps around.
abbrev complement : ℤ → ℤ
complement (pos n) = negsuc n
complement (negsuc n) = pos n

abbrev int32_of : ℤ → ℤ
int32_of (pos n) = to_int32 n
int32_of (negsuc n) = complement (to_int32 n)

module _ (lower : Char → Char) where
  -- The part of Create behind the test of the limit.
  abbrev pub insert : String → String → List String → M Feed
  insert user_id name keywords = do
    id ← new_uuid
    create_feed (record {
      id = id;
      name = name;
      keywords = encode_keywords lower keywords;
      user_id = user_id;
    })

  -- `if count >= schemas.FeedMaxPerUser { return ErrFeedLimitReached }`, and what follows.
  abbrev pub insert_if : Bool → String → String → List String → M Feed
  insert_if true user_id name keywords = raise feed_limit_reached
  insert_if false user_id name keywords = insert user_id name keywords

  unfoldable pub create : String → String → List String → M Feed
  create user_id name keywords = do
    count ← count_active_feeds_by_user user_id
    insert_if (leb feed_max_per_user count) user_id name keywords

  unfoldable pub update : String → String → String → List String → M Feed
  update id user_id name keywords = map_err (when_missing feed_not_found) (
      update_feed_by_id_and_user (record {
        name = name;
        keywords = encode_keywords lower keywords;
        id = id;
        user_id = user_id;
      }))

  -- A candidate is a row of the query: the feed and its overlap.
  unfoldable pub find_candidates_by_keywords : List String → ℤ → M (List CandidateRow)
  find_candidates_by_keywords [] inactive_days = pure []
  find_candidates_by_keywords (k ∷ ks) inactive_days =
      find_candidate_feeds_by_keywords (int32_of inactive_days) (normalize_keywords lower (k ∷ ks))

unfoldable pub find_by_id : String → String → M Feed
find_by_id id user_id = map_err (when_missing feed_not_found) (find_feed_by_id_and_user id user_id)

unfoldable pub soft_delete : String → String → M (Unit {0})
soft_delete id user_id = soft_delete_feed_by_id_and_user id user_id
