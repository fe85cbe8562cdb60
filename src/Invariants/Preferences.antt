-- ===== src/Invariants/Preferences.antt =====
-- The users and their preferences: services/controllers/users.go and user_preferences.go.
use Prim.Native.Char.{Char}
use news_feed_backend.Prelude.{
  ℕ, String, str_eq, str_eq_iff, ◌≡◌, ◌∙◌, refl, Bool, true, false, List, ◌∷◌, All, All-map,
  All-update_where, exists, exists-cons, exists-here, str_eq_left, exists-update_where,
  update_where, arith,
}
use news_feed_backend.Store.{User, UserPreference, Db, World, live}
use news_feed_backend.History.{Event, run}
use news_feed_backend.History.Changes.{Survives}
use news_feed_backend.History.Lift.{preserves}
use news_feed_backend.History.Runs.{run-keeps}
use news_feed_backend.Queries.Users.{is_unremoved_user, removed_user}
use news_feed_backend.Queries.UserPreferences.{
  is_active_of, is_unremoved_of, removed_preferences, new_preferences, CreateUserPreferencesParams,
}

-- If the user is live, so is a row of preferences of theirs.
abbrev pub HasPreferencesIn : List UserPreference → User → Type 0
HasPreferencesIn ps u = live u.status u.removed_at ≡ true → exists (is_active_of u.id) ps ≡ true

abbrev pub HasPreferences : Db → Type 0
HasPreferences db = All (HasPreferencesIn db.user_preferences) db.users

created :
    (now : ℕ) (id : String) (q : CreateUserPreferencesParams)
    → q.user_id ≡ id
    → (ps : List UserPreference) → exists (is_active_of id) (new_preferences now q ∷ ps) ≡ true
created now id q same ps =
    exists-here (is_active_of id) (new_preferences now q) ps
      (ground (arith, (str_eq_iff q.user_id id).1 same))

removal_spares :
    (now : ℕ) (id user_id : String) (ps : List UserPreference)
    → str_eq user_id id ≡ false
    → exists (is_active_of user_id) (update_where (is_unremoved_of id) (removed_preferences now) ps)
      ≡ exists (is_active_of user_id) ps
removal_spares now id user_id ps other =
    exists-update_where (is_active_of user_id) (is_unremoved_of id) (removed_preferences now)
      (λ p hit. ground (arith, str_eq_left p.user_id user_id id)) ps

survives : Survives HasPreferences
survives = record {
  source_added = λ now p db free h. h;
  source_changed = λ now p db free h. h;
  source_gone = λ n n' n'' id db h. h;
  article_added = λ now p db found free h. h;
  article_changed = λ now p db free h. h;
  content_changed = λ now content id db h. h;
  article_gone = λ now id db h. h;
  link_added = λ now id article_id href db there h. h;
  link_changed = λ now new_href old_href db h. h;
  feed_added = λ now p db few free there h. h;
  feed_changed = λ now p db h. h;
  feed_gone = λ now id user_id db h. h;
  associated = λ now id article_id feed_id db h. h;
  marked = λ now article_id user_id db h. h;
  token_added = λ now id user_id at db free revoked h. h;
  token_extended = λ now id at db h. h;
  token_gone = λ now id db h. h;
  tokens_gone = λ now user_id db h. h;
  user_added = λ n n' p q db free same h. (
    (λ l. created n' p.id q same db.user_preferences),
    All-map _ _ (λ u k l. exists-cons _ _ _ (k l)) _ h,
  );
  user_logged_in = λ now id db h. All-update_where _ _ _ _ (λ u k hit. k) (λ u k miss. k) _ h;
  user_seen = λ now id db h. All-update_where _ _ _ _ (λ u k hit. k) (λ u k miss. k) _ h;
  user_gone = λ n n' n'' n''' id db h.
      All-update_where (HasPreferencesIn db.user_preferences)
        (HasPreferencesIn
          (update_where (is_unremoved_of id) (removed_preferences n') db.user_preferences))
        (is_unremoved_user id) (removed_user n) (λ u k hit l. absurd (ground arith))
        (λ u k miss l. removal_spares n' id u.id db.user_preferences (ground arith) ∙ k l) _ h;
  preferences_changed = λ now language personality user_id db h.
      All-map _ _ (λ u k l. exists-update_where _ _ _ (λ p hit. refl) db.user_preferences ∙ k l) _
        h;
  system_changed = λ ss db h. h;
}

-- After every history of requests and sweeps of the scheduler, each active user has active
-- preferences, if this was so before: the two are created together and removed together.
pub run-HasPreferences :
    (lower : Char → Char) (valid_url : String → Bool) (expiry lifetime : ℕ) (es : List (ℕ × Event))
    (w : World)
    → HasPreferences w.db
    → HasPreferences (run lower valid_url expiry lifetime es w).db
run-HasPreferences lower valid_url expiry lifetime =
    run-keeps lower valid_url expiry lifetime (preserves lower survives)
