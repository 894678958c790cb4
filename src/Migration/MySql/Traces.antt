-- ===== src/Migration/MySql/Traces.antt =====
-- A program logic for code whose statements commit one by one: from any database with the contents
-- `c`, the code ends with `Q` of its value and of the contents, or fails with `R` of the contents.
use toasty_mgr.Prelude.{
  ◌≡◌, refl, ap, ◌∙◌, Bool, true, false, inl, inr, List, Result, ok, err, Text,
}
use toasty_mgr.Prelude.Action.{Action, pure, fail, lift, ◌>>=◌, bail_when}
use toasty_mgr.Migration.Types.{Error}
use toasty_mgr.Migration.Sqlite.{Row, first_of_rows}
use toasty_mgr.Migration.MySql.Statements.{
  Statement, release_lock, get_lock, select_database, script,
}
use toasty_mgr.Migration.MySql.Decoded.{current_database, lock_taken}
use toasty_mgr.Migration.MySql.Tables.{
  Contents, Server, IsLawful, effect, Answers, Outcome, Scripted, is_script,
}
use toasty_mgr.Migration.MySql.{run_statement, acquire_lock}

module _ (e : Server) where
  open e use {App, run, is_plain, Db, contents, connection, exec}

  abbrev pub Ends :
      {A : Type 0}
      → (A → Contents App → Type 0)
      → (Contents App → Type 0)
      → Result Error A × Db
      → Type 0
  Ends Q R (ok a, db') = Q a (contents db')
  Ends Q R (err _, db') = R (contents db')

  pub record Traced {A : Type 0} (m : Action Db Error A) (c : Contents App)
      (Q : A → Contents App → Type 0) (R : Contents App → Type 0) : Type 0 where
    pub at : (db : Db) → contents db ≡ c → Ends Q R (m db)

  pub Traced-pure :
      {A : Type 0} (Q : A → Contents App → Type 0) (R : Contents App → Type 0) (a : A)
      (c : Contents App)
      → Q a c
      → Traced (pure a) c Q R
  Traced-pure Q R a c q = record { at = λ db same. rw same q }

  pub Traced-fail :
      {A : Type 0} (Q : A → Contents App → Type 0) (R : Contents App → Type 0) (x : Error)
      (c : Contents App)
      → R c
      → Traced (fail x) c Q R
  Traced-fail Q R x c r = record { at = λ db same. rw same r }

  pub Traced-lift :
      {A : Type 0} (Q : A → Contents App → Type 0) (R : Contents App → Type 0) (v : Result Error A)
      (c : Contents App)
      → R c
      → ((a : A) → v ≡ ok a → Q a c)
      → Traced (lift v) c Q R
  Traced-lift Q R (ok a) c r q = record { at = λ db same. rw same (q a refl) }
  Traced-lift Q R (err x) c r q = record { at = λ db same. rw same r }

  pub Traced-bail_when :
      (Q : Unit {0} → Contents App → Type 0) (R : Contents App → Type 0) (b : Bool) (x : Error)
      (c : Contents App)
      → R c
      → (b ≡ false → Q tt c)
      → Traced (bail_when b x) c Q R
  Traced-bail_when Q R true x c r q = record { at = λ db same. rw same r }
  Traced-bail_when Q R false x c r q = record { at = λ db same. rw same (q refl) }

  Ends-bind :
      {A B : Type 0} (P : A → Contents App → Type 0) (Q : B → Contents App → Type 0)
      (R : Contents App → Type 0) (f : A → Action Db Error B) (r : Result Error A × Db)
      → Ends P R r
      → ((a : A) (c' : Contents App) → P a c' → Traced (f a) c' Q R)
      → Ends Q R (let (x, db') = r in elim x [ ok a ↦ f a db' | err y ↦ (err y, db') ])
  Ends-bind P Q R f (ok a, db') p k = (k a (contents db') p).at db' refl
  Ends-bind P Q R f (err x, db') p k = p

  -- A sequence: the first part establishes `P`, the rest goes on from there.
  pub Traced-bind :
      {A B : Type 0} (P : A → Contents App → Type 0) (Q : B → Contents App → Type 0)
      (R : Contents App → Type 0) (m : Action Db Error A) (f : A → Action Db Error B)
      (c : Contents App)
      → Traced m c P R
      → ((a : A) (c' : Contents App) → P a c' → Traced (f a) c' Q R)
      → Traced (m >>= f) c Q R
  Traced-bind P Q R m f c h k = record { at = λ db same. Ends-bind P Q R f (m db) (h.at db same) k }

  -- A first part that leaves the contents alone.
  pub Traced-then :
      {A B : Type 0} (Q : B → Contents App → Type 0) (R : Contents App → Type 0)
      (m : Action Db Error A) (f : A → Action Db Error B) (c : Contents App)
      → Traced m c (λ _ c'. c' ≡ c) R
      → ((a : A) → Traced (f a) c Q R)
      → Traced (m >>= f) c Q R
  Traced-then Q R m f c h k = Traced-bind (λ _ c'. c' ≡ c) Q R m f c h (λ a c' same. rw same (k a))

  Ends-post :
      {A : Type 0} (P Q : A → Contents App → Type 0) (R R' : Contents App → Type 0)
      (r : Result Error A × Db)
      → ((a : A) (c' : Contents App) → P a c' → Q a c')
      → ((c' : Contents App) → R c' → R' c')
      → Ends P R r
      → Ends Q R' r
  Ends-post P Q R R' (ok a, db') k l p = k a (contents db') p
  Ends-post P Q R R' (err x, db') k l p = l (contents db') p

  pub Traced-post :
      {A : Type 0} (P Q : A → Contents App → Type 0) (R R' : Contents App → Type 0)
      (m : Action Db Error A) (c : Contents App)
      → Traced m c P R
      → ((a : A) (c' : Contents App) → P a c' → Q a c')
      → ((c' : Contents App) → R c' → R' c')
      → Traced m c Q R'
  Traced-post P Q R R' m c h k l = record {
    at = λ db same. Ends-post P Q R R' (m db) k l (h.at db same);
  }

  module _ (law : IsLawful e) where
    Ends-exec :
        (st : Statement) (R : Contents App → Type 0) (c : Contents App) (db : Db)
        (r : Result Error (List Row) × Db)
        → contents db ≡ c
        → R c
        → R (effect e st c)
        → Outcome e st db r
        → Ends (λ rows c'. (c' ≡ effect e st c) × Answers e st c rows) R r
    Ends-exec st R c db (ok rows, db') same before after (h, answers) =
        (h ∙ ap (effect e st) same, rw same at answers)
    Ends-exec st R c db (err x, db') same before after (inl h) = rw (h ∙ same) before
    Ends-exec st R c db (err x, db') same before after (inr h) =
        rw (h ∙ ap (effect e st) same) after

    pub Traced-exec :
        (st : Statement) (R : Contents App → Type 0) (c : Contents App)
        → is_script e st ≡ false
        → R c
        → R (effect e st c)
        → Traced (exec st) c (λ rows c'. (c' ≡ effect e st c) × Answers e st c rows) R
    Traced-exec st R c s before after = record {
      at = λ db same. Ends-exec st R c db (exec st db) same before after (law.exec_law st db s);
    }

    pub Traced-statement :
        (st : Statement) (R : Contents App → Type 0) (c : Contents App)
        → is_script e st ≡ false
        → R c
        → R (effect e st c)
        → Traced (run_statement e st) c (λ _ c'. c' ≡ effect e st c) R
    Traced-statement st R c s before after =
        Traced-bind _ _ R (exec st) (λ _. pure tt) c (Traced-exec st R c s before after)
          (λ rows c' h. Traced-pure _ R tt c' h.0)

    abbrev failed : App → Contents App → Contents App
    failed app' c = record c { app = app' }

    Ends-script :
        (sql : Text) (R : Contents App → Type 0) (c : Contents App) (db : Db)
        (r : Result Error (List Row) × Db)
        → contents db ≡ c
        → ((app' : App) → R (record c { app = app' }))
        → Scripted e sql db r
        → Ends (λ _ c'. c' ≡ effect e (script sql) c) R r
    Ends-script sql R c db (ok rows, db') same fails h = h ∙ ap (effect e (script sql)) same
    Ends-script sql R c db (err x, db') same fails (app', h) =
        rw (h ∙ ap (failed app') same) (fails app')

    pub Traced-script :
        (sql : Text) (R : Contents App → Type 0) (c : Contents App)
        → is_plain sql ≡ true
        → ((app' : App) → R (record c { app = app' }))
        → Traced (run_statement e (script sql)) c (λ _ c'. c' ≡ effect e (script sql) c) R
    Traced-script sql R c plain fails =
        Traced-bind _ _ R (exec (script sql)) (λ _. pure tt) c
          (record {
            at = λ db same.
                Ends-script sql R c db (exec (script sql) db) same fails
                  (law.script_law sql db plain);
          })
          (λ rows c' h. Traced-pure _ R tt c' h)

    -- A statement that changes no table.
    keeps :
        (st : Statement) (R : Contents App → Type 0) (c : Contents App)
        → is_script e st ≡ false
        → effect e st c ≡ c
        → R c
        → Traced (exec st) c (λ _ c'. c' ≡ c) R
    keeps st R c s same r =
        Traced-post _ _ R R (exec st) c (Traced-exec st R c s r (rw same r)) (λ _ c' h. h.0 ∙ same)
          (λ _ r'. r')

    pub acquire_lock-Traced :
        (source : Text) (R : Contents App → Type 0) (c : Contents App)
        → R c
        → Traced (acquire_lock e source) c (λ _ c'. c' ≡ c) R
    unfolding acquire_lock
    acquire_lock-Traced source R c r =
        Traced-then same R (exec select_database) _ c (keeps select_database R c refl refl r)
          (λ rows.
            Traced-then same R (lift (current_database rows)) _ c
              (Traced-lift same R (current_database rows) c r (λ _ _. refl))
              (λ database.
                Traced-then same R (run_statement e (release_lock (e.lock_name database))) _ c
                  (Traced-statement (release_lock (e.lock_name database)) R c refl r r)
                  (λ _.
                    Traced-then same R (exec (get_lock (e.lock_name database))) _ c
                      (keeps (get_lock (e.lock_name database)) R c refl refl r)
                      (λ answer.
                        Traced-then same R (lift (lock_taken source (first_of_rows answer)))
                          (λ _. pure (e.lock_name database)) c
                          (Traced-lift (λ _ c'. c' ≡ c) R (lock_taken source (first_of_rows answer))
                            c r (λ _ _. refl))
                          (λ _. Traced-pure same R (e.lock_name database) c refl)))))
      where
        same : Text → Contents App → Type 0
        same _ c' = c' ≡ c
