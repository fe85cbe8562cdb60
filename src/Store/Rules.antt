-- ===== src/Store/Rules.antt =====
-- Rules for what an action keeps: through the actions of `Monad`, and through a transaction, whose
-- inside may break an invariant that its end restores.
use news_feed_backend.Prelude.{
  ℕ, String, ◌≡◌, refl, subst, Bool, true, false, Option, none, some, arith,
}
use news_feed_backend.Store.Models.{Db}
use news_feed_backend.Store.Monad.{
  Error, Result, ok, err, World, M, pure, raise, ◌>>=◌, then_do, map_err, on_error, attempt, query,
  answered, read, exec, new_uuid, now_is, uuid_of, next_uuid, finish, committed, begun,
  with_transaction, rest_of, faulty,
}

-- The action leaves `I` true, whether it fails or not.
pub record Keeps {A : Type 0} (I : Db → Type 0) (m : M A) : Type 0 where
  pub at : (w : World) → I w.db → I (m w).1.db

-- If the action succeeds, it leads from `P` to `Q` of its result.
pub record Leads {A : Type 0} (P : Db → Type 0) (Q : A → Db → Type 0) (m : M A) : Type 0 where
  pub at : (w : World) → P w.db → (a : A) → (m w).0 ≡ ok a → Q a (m w).1.db

module _ (I : Db → Type 0) {A : Type 0} where
  pub pure-Keeps : (a : A) → Keeps I (pure a)
  pure-Keeps a = record { at = λ w h. h }

  pub raise-Keeps : (e : Error) → Keeps {A = A} I (raise e)
  raise-Keeps e = record { at = λ w h. h }

  answered-keeps :
      (w : World) (r : Result A × Db) (b : Bool) → I w.db → I r.1 → I (answered w r b).1.db
  unfolding answered
  answered-keeps w (r, db) true h k = h
  answered-keeps w (r, db) false h k = k

  pub query-Keeps :
      (f : ℕ → Db → Result A × Db)
      → ((now : ℕ) (db : Db) → I db → I (f now db).1)
      → Keeps I (query f)
  unfolding query
  query-Keeps f keep = record {
    at = λ w h.
        answered-keeps (record w { faults = rest_of w.faults }) (f w.now w.db) _ h
          (keep w.now w.db h);
  }

  pub map_err-Keeps : (f : Error → Error) {m : M A} → Keeps I m → Keeps I (map_err f m)
  map_err-Keeps f {m} k = record { at = λ w h. go (m w) (k.at w h) }
    where
      go : (r : Result A × World) → I r.1.db → I (on_error f r).1.db
      go (ok a, w) h = h
      go (err e, w) h = h

  pub attempt-Keeps : {m : M A} → Keeps I m → Keeps I (attempt m)
  attempt-Keeps k = record { at = λ w h. k.at w h }

  finish-keeps :
      (before : Db) (r : Result A × World)
      → I before
      → ((a : A) → r.0 ≡ ok a → I r.1.db)
      → I (finish before r).1.db
  unfolding finish committed
  finish-keeps before (err e, w) h k = h
  finish-keeps before (ok a, w) h k = go (faulty w.faults)
    where
      go : (b : Bool) → I (committed before a (record w { faults = rest_of w.faults }) b).1.db
      go true = h
      go false = k a refl

  -- A transaction keeps an invariant that its body restores whenever it succeeds.
  pub with_transaction-Keeps : {m : M A} → Leads I (λ a. I) m → Keeps I (with_transaction m)
  unfolding with_transaction
  with_transaction-Keeps {m} k = record {
    at = λ w h. go (faulty w.faults) (record w { faults = rest_of w.faults }) h;
  }
    where
      go : (b : Bool) (w : World) → I w.db → I (begun m b w).1.db
      go true w h = h
      go false w h = finish-keeps w.db (m w) h (λ a e. k.at w h a e)

  pub Keeps-Leads : {m : M A} → Keeps I m → Leads I (λ a. I) m
  Keeps-Leads k = record { at = λ w h a e. k.at w h }

module _ (I : Db → Type 0) where
  pub now_is-Keeps : Keeps I now_is
  now_is-Keeps = record { at = λ w h. h }

  pub new_uuid-Keeps : Keeps I new_uuid
  unfolding new_uuid
  new_uuid-Keeps = record { at = λ w h. go (next_uuid w.uuids) w h }
    where
      go :
          (u : Option String) (w : World)
          → I w.db
          → I (uuid_of u (record w { uuids = rest_of w.uuids })).1.db
      go none w h = h
      go (some u) w h = h

  pub read-Keeps : {A : Type 0} (f : ℕ → Db → Result A) → Keeps I (read f)
  unfolding read
  read-Keeps f = query-Keeps I _ (λ now db h. h)

  pub exec-Keeps :
      (f : ℕ → Db → Db) → ((now : ℕ) (db : Db) → I db → I (f now db)) → Keeps I (exec f)
  unfolding exec
  exec-Keeps f keep = query-Keeps I _ keep

module _ (I : Db → Type 0) {A B : Type 0} where
  then_do-keeps :
      {f : A → M B} (r : Result A × World)
      → I r.1.db
      → ((a : A) → Keeps I (f a))
      → I (then_do f r).1.db
  then_do-keeps (ok a, w) h k = (k a).at w h
  then_do-keeps (err e, w) h k = h

  pub >>=-Keeps :
      {m : M A} {f : A → M B} → Keeps I m → ((a : A) → Keeps I (f a)) → Keeps I (m >>= f)
  >>=-Keeps {m} k l = record { at = λ w h. then_do-keeps (m w) (k.at w h) l }

module _ (P : Db → Type 0) {A B : Type 0} (Q : A → Db → Type 0) (R : B → Db → Type 0) where
  then_do-leads :
      {f : A → M B} (r : Result A × World)
      → ((a : A) → r.0 ≡ ok a → Q a r.1.db)
      → ((a : A) → Leads (Q a) R (f a))
      → (b : B) → (then_do f r).0 ≡ ok b
      → R b (then_do f r).1.db
  then_do-leads (ok a, w) h k b e = (k a).at w (h a refl) b e
  then_do-leads (err e, w) h k b p = absurd (ground arith)

  pub >>=-Leads :
      {m : M A} {f : A → M B} → Leads P Q m → ((a : A) → Leads (Q a) R (f a)) → Leads P R (m >>= f)
  >>=-Leads {m} k l = record { at = λ w h. then_do-leads (m w) (k.at w h) l }

module _ (P : Db → Type 0) {A : Type 0} (Q : A → Db → Type 0) where
  pub map_err-Leads : (f : Error → Error) {m : M A} → Leads P Q m → Leads P Q (map_err f m)
  map_err-Leads f {m} k = record { at = λ w h. go (m w) (k.at w h) }
    where
      go :
          (r : Result A × World)
          → ((a : A) → r.0 ≡ ok a → Q a r.1.db)
          → (a : A) → (on_error f r).0 ≡ ok a
          → Q a (on_error f r).1.db
      go (ok b, w) h a e = h a e
      go (err x, w) h a e = absurd (ground arith)

  pub pure-Leads : (a : A) → ((db : Db) → P db → Q a db) → Leads P Q (pure a)
  pure-Leads a h = record { at = λ w p b e. subst (λ x. Q x w.db) (ok_inj e) (h w.db p) }
    where
      ok_inj : {b : A} → ok a ≡ ok b → a ≡ b
      ok_inj e = cc

  pub query-Leads :
      (f : ℕ → Db → Result A × Db)
      → ((now : ℕ) (db : Db) (a : A) → P db → (f now db).0 ≡ ok a → Q a (f now db).1)
      → Leads P Q (query f)
  unfolding query answered
  query-Leads f k = record {
    at = λ w p a e.
        go (record w { faults = rest_of w.faults }) (f w.now w.db) _ a (k w.now w.db a p) e;
  }
    where
      go :
          (w : World) (r : Result A × Db) (b : Bool) (a : A)
          → (r.0 ≡ ok a → Q a r.1)
          → (answered w r b).0 ≡ ok a
          → Q a (answered w r b).1.db
      go w (r, db) true a h e = absurd (ground arith)
      go w (r, db) false a h e = h e

  pub read-Leads :
      (f : ℕ → Db → Result A)
      → ((now : ℕ) (db : Db) (a : A) → P db → f now db ≡ ok a → Q a db)
      → Leads P Q (read f)
  unfolding read
  read-Leads f k = query-Leads _ k

module _ (P Q : Db → Type 0) where
  pub exec-Leads :
      (f : ℕ → Db → Db) → ((now : ℕ) (db : Db) → P db → Q (f now db)) → Leads P (λ _. Q) (exec f)
  unfolding exec
  exec-Leads f k = query-Leads P (λ _. Q) _ (λ now db a h e. k now db h)

module _ {A : Type 0} (P : Db → Type 0) (Q : A → Db → Type 0) where
  pub raise-Leads : (e : Error) → Leads P Q (raise e)
  raise-Leads e = record { at = λ w h a p. absurd (ground arith) }

  -- A stronger condition before.
  pub Leads-from :
      (P' : Db → Type 0) {m : M A} → ((db : Db) → P db → P' db) → Leads P' Q m → Leads P Q m
  Leads-from P' f k = record { at = λ w h a e. k.at w (f w.db h) a e }

module _ (P Q : Db → Type 0) {A : Type 0} where
  pub Keeps-both : {m : M A} → Keeps P m → Keeps Q m → Keeps (λ db. P db × Q db) m
  Keeps-both j k = record { at = λ w h. (j.at w h.0, k.at w h.1) }

module _ {A : Type 0} (P : Db → Type 0) (Q : A → Db → Type 0) where
  finish-leads :
      (before : Db) (r : Result A × World)
      → ((a : A) → r.0 ≡ ok a → Q a r.1.db)
      → (a : A) → (finish before r).0 ≡ ok a
      → Q a (finish before r).1.db
  unfolding finish committed
  finish-leads before (err e, w) k a h = absurd (ground arith)
  finish-leads before (ok b, w) k a h = go (faulty w.faults) h
    where
      go :
          (x : Bool)
          → (committed before b (record w { faults = rest_of w.faults }) x).0 ≡ ok a
          → Q a (committed before b (record w { faults = rest_of w.faults }) x).1.db
      go true h = absurd (ground arith)
      go false h = k a h

  pub with_transaction-Leads : {m : M A} → Leads P Q m → Leads P Q (with_transaction m)
  unfolding with_transaction begun
  with_transaction-Leads {m} k = record {
    at = λ w h a e. go (faulty w.faults) (record w { faults = rest_of w.faults }) h a e;
  }
    where
      go :
          (b : Bool) (w : World)
          → P w.db
          → (a : A) → (begun m b w).0 ≡ ok a
          → Q a (begun m b w).1.db
      go true w h a e = absurd (ground arith)
      go false w h a e = finish-leads w.db (m w) (k.at w h) a e

module _ {A B : Type 0} where
  -- If the first action succeeds and the second does in every world, both do.
  pub >>=-succeeds :
      (m : M A) (f : A → M B) (w : World) (a : A) (b : B)
      → (m w).0 ≡ ok a
      → ((v : World) → (f a v).0 ≡ ok b)
      → ((m >>= f) w).0 ≡ ok b
  >>=-succeeds m f w a b e k = go (m w) e
    where
      ok_inj : {c : A} → ok c ≡ ok a → c ≡ a
      ok_inj e = cc

      go : (r : Result A × World) → r.0 ≡ ok a → (then_do f r).0 ≡ ok b
      go (ok c, v) e = rw (ok_inj e) (k v)
      go (err x, v) e = absurd (ground arith)

module _ {A : Type 0} (P : Db → Type 0) (Q : Result A → Db → Type 0) where
  -- The result as a value has what the action brings about, whether it fails or not.
  pub attempt-Leads :
      (m : M A) → ((w : World) → P w.db → Q (m w).0 (m w).1.db) → Leads P Q (attempt m)
  attempt-Leads m k = record { at = λ w p r e. subst (λ x. Q x (m w).1.db) (ok_inj e) (k w p) }
    where
      ok_inj : {c d : Result A} → ok c ≡ ok d → c ≡ d
      ok_inj e = cc
