-- ===== src/Invariants/Sessions.antt =====
-- The sessions of a user: the refresh tokens of services/controllers/auth.go and refresh_tokens.go.
use Prim.Native.Char.{Char}
use news_feed_backend.Prelude.{
  ℕ, ◌≤◌, String, str_eq, str_eq_iff, ◌≡◌, ap, refl, sym, subst, Bool, false, List, ◌∷◌, exists,
  update_where, count_where, count_where-none, count_where-update_where,
  count_where-update_where_le, arith, Bool-cases, inl, inr,
}
use news_feed_backend.Store.{RefreshToken, Db, World}
use news_feed_backend.History.{Event, run}
use news_feed_backend.History.Changes.{Survives}
use news_feed_backend.History.Lift.{preserves}
use news_feed_backend.History.Runs.{run-keeps}
use news_feed_backend.Queries.RefreshTokens.{is_unremoved_token_of, revoked, new_token}

abbrev pub HasOneSession : Db → Type 0
HasOneSession db =
    (user_id : String) → count_where (is_unremoved_token_of user_id) db.refresh_tokens ≤ 1

add_one :
    (t : RefreshToken) (ts : List RefreshToken) (user_id : String)
    → exists (is_unremoved_token_of t.user_id) ts ≡ false
    → count_where (is_unremoved_token_of user_id) ts ≤ 1
    → count_where (is_unremoved_token_of user_id) (t ∷ ts) ≤ 1
unfolding count_where
add_one t ts user_id none_left h = elim (Bool-cases (str_eq t.user_id user_id)) [
  | inl same ↦ ground (
    arith,
    count_where-none _ ts none_left,
    ap (λ u. count_where (is_unremoved_token_of u) ts) ((str_eq_iff t.user_id user_id).0 same),
  )
  | inr other ↦ ground arith
]

less :
    (test : RefreshToken → Bool) (now : ℕ) (ts : List RefreshToken) (user_id : String)
    → count_where (is_unremoved_token_of user_id) ts ≤ 1
    → count_where (is_unremoved_token_of user_id) (update_where test (revoked now) ts) ≤ 1
less test now ts user_id h = omega (
  arith,
  h,
  count_where-update_where_le (is_unremoved_token_of user_id) test (revoked now)
      (λ t hit k. ground arith) ts,
)

survives : Survives HasOneSession
survives = record {
  source_added = λ now p db free h. h;
  source_changed = λ now p db free h. h;
  source_gone = λ n n' n'' id db h. h;
  article_added = λ now p db found free h. h;
  article_changed = λ now p db free h. h;
  content_changed = λ now content id db h. h;
  article_gone = λ now id db h. h;
  link_added = λ now id article_id href db there h. h;
  link_changed = λ now new_href old_href db h. h;
  feed_added = λ now p db few free there h. h;
  feed_changed = λ now p db h. h;
  feed_gone = λ now id user_id db h. h;
  associated = λ now id article_id feed_id db h. h;
  marked = λ now article_id user_id db h. h;
  token_added = λ now id user_id at db free revoked h.
      λ u. add_one (new_token now id user_id at) db.refresh_tokens u revoked (h u);
  token_extended = λ now id at db h. λ u.
      subst (λ n. n ≤ 1) (sym (count_where-update_where _ _ _ (λ t hit. refl) db.refresh_tokens))
        (h u);
  token_gone = λ now id db h. λ u. less _ now db.refresh_tokens u (h u);
  tokens_gone = λ now user_id db h. λ u. less _ now db.refresh_tokens u (h u);
  user_added = λ n n' p q db free same h. h;
  user_logged_in = λ now id db h. h;
  user_seen = λ now id db h. h;
  user_gone = λ n n' n'' n''' id db h. λ u. less _ n'' db.refresh_tokens u (h u);
  preferences_changed = λ now language personality user_id db h. h;
  system_changed = λ ss db h. h;
}

-- After every history of requests and sweeps of the scheduler, each user has at most one refresh
-- token that is not revoked, if this was so before: a login revokes the earlier ones before it
-- makes its own.
pub run-HasOneSession :
    (lower : Char → Char) (valid_url : String → Bool) (expiry lifetime : ℕ) (es : List (ℕ × Event))
    (w : World)
    → HasOneSession w.db
    → HasOneSession (run lower valid_url expiry lifetime es w).db
run-HasOneSession lower valid_url expiry lifetime =
    run-keeps lower valid_url expiry lifetime (preserves lower survives)
