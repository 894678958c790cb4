-- ===== src/Migration/MySql/Locked.antt =====
-- The migration lock around a body of work: what `with_lock` and `finish_lock` pass on.
use toasty_mgr.Prelude.{◌≡◌, refl, ◌∙◌, ◌⊎◌, false, inl, inr, List, Result, ok, err, Text}
use toasty_mgr.Prelude.Action.{returned, Action, ◌>>=◌}
use toasty_mgr.Migration.Types.{Error, release_failed, lock_not_owned}
use toasty_mgr.Migration.Sqlite.{Row, value_i64, first_value}
use toasty_mgr.Migration.Sqlite.Rows.{null}
use toasty_mgr.Migration.MySql.Statements.{release_lock}
use toasty_mgr.Migration.MySql.Decoded.{released, lock_released, joined}
use toasty_mgr.Migration.MySql.Tables.{Contents, Server, single, IsLawful, Outcome, Releases}
use toasty_mgr.Migration.MySql.Traces.{Ends, Traced, Traced-then, acquire_lock-Traced}
use toasty_mgr.Migration.MySql.{acquire_lock, finish_lock, body_then_finish, with_lock}

module _ (e : Server) (law : IsLawful e) where
  open e use {App, Db, contents, is_locked, connection, exec}

  joined-Ends :
      {A : Type 0} (Q : A → Contents App → Type 0) (R : Contents App → Type 0)
      (result : Result Error A) (release : Result Error (Unit {0})) (db db' : Db)
      → contents db' ≡ contents db
      → ((a : A) (c : Contents App) → Q a c → R c)
      → Ends e Q R (result, db)
      → Ends e Q R (joined result release, db')
  unfolding joined
  joined-Ends Q R (ok a) (ok _) db db' same weaken q = rw same q
  joined-Ends Q R (err x) (ok _) db db' same weaken r = rw same r
  joined-Ends Q R (ok a) (err y) db db' same weaken q = rw same (weaken a (contents db) q)
  joined-Ends Q R (err x) (err y) db db' same weaken r = rw same r

  release-same :
      (lock : Text) (db : Db) (r : Result Error (List Row) × Db)
      → Outcome e (release_lock lock) db r
      → contents r.1 ≡ contents db
  release-same lock db (ok rows, db') h = h.0
  release-same lock db (err x, db') (inl h) = h
  release-same lock db (err x, db') (inr h) = h

  finish_lock-Ends :
      {A : Type 0} (Q : A → Contents App → Type 0) (R : Contents App → Type 0) (source lock : Text)
      (r : Result Error A × Db)
      → ((a : A) (c : Contents App) → Q a c → R c)
      → Ends e Q R r
      → Ends e Q R (finish_lock e source lock r.0 r.1)
  unfolding finish_lock
  finish_lock-Ends Q R source lock (result, db) weaken h =
      let released_db = exec (release_lock lock) db in
      joined-Ends Q R result (released source released_db.0) db released_db.1
        (release-same lock db released_db (law.exec_law (release_lock lock) db refl)) weaken h

  connected-Ends :
      {A : Type 0} (Q : A → Contents App → Type 0) (R : Contents App → Type 0)
      (m : Action Db Error A) (c : Contents App) (r : Result Error (Unit {0}) × Db)
      → contents r.1 ≡ c
      → R c
      → Traced e m c Q R
      → Ends e Q R ((returned r >>= λ _. m) r.1)
  connected-Ends Q R m c (ok _, db') same r k = k.at db' same
  connected-Ends Q R m c (err x, db') same r k = rw same r

  -- Work under the lock ends as its body does, where a body's value may still be lost to an error
  -- of the lock.
  pub with_lock-Traced :
      {A : Type 0} (Q : A → Contents App → Type 0) (R : Contents App → Type 0) (source : Text)
      (body : Action Db Error A) (c : Contents App)
      → R c
      → ((a : A) (c : Contents App) → Q a c → R c)
      → Traced e body c Q R
      → Traced e (with_lock e source body) c Q R
  unfolding with_lock
  with_lock-Traced Q R source body c r weaken k = record {
    at = λ db same.
        connected-Ends Q R (acquire_lock e source >>= λ lock. body_then_finish e source lock body) c
          (connection db) (law.connection_law db ∙ same) r
          (Traced-then e Q R (acquire_lock e source) (λ lock. body_then_finish e source lock body) c
            (acquire_lock-Traced e law source R c r)
            (λ lock. record {
              at = λ db same. finish_lock-Ends Q R source lock (body db) weaken (k.at db same);
            }));
  }

  -- How the result of a body, the answer to `RELEASE_LOCK` and the result of `finish_lock` relate.
  abbrev pub Finishes :
      {A : Type 0}
      → Text
      → Text
      → Result Error A
      → Result Error (List Row)
      → Result Error A × Db
      → Type 0
  Finishes source lock result answer (ok a, db') =
      (result ≡ ok a) × (released source answer ≡ ok tt) × (is_locked db' lock ≡ false)
  Finishes {A} source lock result answer (err x, db') =
      (result ≡ err x) × (released source answer ≡ ok tt)
      ⊎ ((y z : Error) × (result ≡ err y)
          × (released source answer ≡ err z)
          × (x ≡ release_failed y z))
      ⊎ ((a : A) × (result ≡ ok a) × (released source answer ≡ err x))

  -- The answer 1 is the only one that passes.
  released-unlocked :
      (source lock : Text) (answer : Result Error (List Row)) (db' : Db)
      → Releases e lock (answer, db')
      → released source answer ≡ ok tt
      → is_locked db' lock ≡ false
  unfolding lock_released value_i64 first_value
  released-unlocked source lock (err x) db' h k = cc
  released-unlocked source lock (ok rows) db' (inl (one, unlocked)) k = unlocked
  released-unlocked source lock (ok rows) db' (inr (inl zero_)) k =
      absurd (let bad : err (lock_not_owned source) ≡ ok tt = rw zero_ at k in cc)
  released-unlocked source lock (ok rows) db' (inr (inr missing)) k =
      absurd (let bad : lock_released source (single null) ≡ ok tt = rw missing at k in cc)

  joined-Finishes :
      {A : Type 0} (source lock : Text) (result : Result Error A) (answer : Result Error (List Row))
      (release : Result Error (Unit {0})) (db' : Db)
      → released source answer ≡ release
      → Releases e lock (answer, db')
      → Finishes source lock result answer (joined result release, db')
  unfolding joined
  joined-Finishes source lock (ok a) answer (ok _) db' h law =
      (refl, h, released-unlocked source lock answer db' law h)
  joined-Finishes source lock (err x) answer (ok _) db' h law = inl (refl, h)
  joined-Finishes source lock (ok a) answer (err y) db' h law = inr (inr (a, refl, h))
  joined-Finishes source lock (err x) answer (err y) db' h law = inr (inl (x, y, refl, h, refl))

  -- Finishing the lock neither invents a value nor hides an error: a value comes back only if the
  -- work returned it and the server has answered that it released the session's lock of this name,
  -- and an error is the work's own, where the release went well, the work's with that of the release
  -- beside it, or, where the work returned a value, that of the release.
  pub finish_lock-Finishes :
      {A : Type 0} (source lock : Text) (result : Result Error A) (db : Db)
      → Finishes source lock result
          (exec (release_lock lock) db).0
          (finish_lock e source lock result db)
  unfolding finish_lock
  finish_lock-Finishes source lock result db =
      let released_db = exec (release_lock lock) db in
      joined-Finishes source lock result released_db.0 (released source released_db.0) released_db.1
        refl (law.release_law lock db)
