-- ===== src/Migration/Sqlite/Runs.antt =====
-- A program logic for the body of a transaction: from any database whose open transaction works on
-- the contents `c`, the body leaves what is committed alone, and when it returns a value, `P` holds
-- of that value and of the contents that it then works on.
use toasty_mgr.Prelude.{◌≡◌, refl, ap, ◌∙◌, true, none, some, List, Result, ok, err}
use toasty_mgr.Prelude.Action.{returned, Action, pure, fail, lift, ◌>>=◌}
use toasty_mgr.Migration.Types.{Error}
use toasty_mgr.Migration.Sqlite.Rows.{Statement, Row, commit, begin_immediate}
use toasty_mgr.Migration.Sqlite.Database.{
  Contents, Engine, IsLawful, effect, Answers, is_data, Inside, Begins, Commits,
}
use toasty_mgr.Migration.Sqlite.{
  run_statement, finish_transaction, body_then_finish, in_transaction,
}

module _ (e : Engine) where
  open e use {App, Db, committed, working, connection, exec}

  abbrev pub After : {A : Type 0} → (A → Contents App → Type 0) → Db → Result Error A × Db → Type 0
  After P db (ok a, db') =
      (committed db' ≡ committed db) × (c' : Contents App) × (working db' ≡ some c') × P a c'
  After P db (err _, db') = committed db' ≡ committed db

  pub record Runs {A : Type 0} (m : Action Db Error A) (c : Contents App)
      (P : A → Contents App → Type 0) : Type 0 where
    pub at : (db : Db) → working db ≡ some c → After P db (m db)

  pub Runs-pure :
      {A : Type 0} (P : A → Contents App → Type 0) (a : A) (c : Contents App)
      → P a c
      → Runs (pure a) c P
  Runs-pure P a c p = record { at = λ db w. (refl, c, w, p) }

  pub Runs-fail :
      {A : Type 0} (P : A → Contents App → Type 0) (x : Error) (c : Contents App)
      → Runs (fail x) c P
  Runs-fail P x c = record { at = λ db w. refl }

  pub Runs-lift :
      {A : Type 0} (P : A → Contents App → Type 0) (r : Result Error A) (c : Contents App)
      → ((a : A) → r ≡ ok a → P a c)
      → Runs (lift r) c P
  Runs-lift P (ok a) c p = record { at = λ db w. (refl, c, w, p a refl) }
  Runs-lift P (err x) c p = record { at = λ db w. refl }

  After-trans :
      {A : Type 0} (P : A → Contents App → Type 0) (db db' : Db) (r : Result Error A × Db)
      → committed db' ≡ committed db
      → After P db' r
      → After P db r
  After-trans P db db' (ok a, last) same (h, c', w, p) = (h ∙ same, c', w, p)
  After-trans P db db' (err x, last) same h = h ∙ same

  After-bind :
      {A B : Type 0} (P : A → Contents App → Type 0) (Q : B → Contents App → Type 0)
      (f : A → Action Db Error B) (db : Db) (r : Result Error A × Db)
      → After P db r
      → ((a : A) (c' : Contents App) → P a c' → Runs (f a) c' Q)
      → After Q db (let (x, db') = r in elim x [ ok a ↦ f a db' | err y ↦ (err y, db') ])
  After-bind P Q f db (ok a, db') (same, c', w, p) k =
      After-trans Q db db' (f a db') same ((k a c' p).at db' w)
  After-bind P Q f db (err x, db') same k = same

  -- A sequence: the first part establishes `P`, the rest goes on from there.
  pub Runs-bind :
      {A B : Type 0} (P : A → Contents App → Type 0) (Q : B → Contents App → Type 0)
      (m : Action Db Error A) (f : A → Action Db Error B) (c : Contents App)
      → Runs m c P
      → ((a : A) (c' : Contents App) → P a c' → Runs (f a) c' Q)
      → Runs (m >>= f) c Q
  Runs-bind P Q m f c hm k = record { at = λ db w. After-bind P Q f db (m db) (hm.at db w) k }

  After-post :
      {A : Type 0} (P Q : A → Contents App → Type 0) (db : Db) (r : Result Error A × Db)
      → ((a : A) (c' : Contents App) → P a c' → Q a c')
      → After P db r
      → After Q db r
  After-post P Q db (ok a, db') k (same, c', w, p) = (same, c', w, k a c' p)
  After-post P Q db (err x, db') k same = same

  pub Runs-post :
      {A : Type 0} (P Q : A → Contents App → Type 0) (m : Action Db Error A) (c : Contents App)
      → Runs m c P
      → ((a : A) (c' : Contents App) → P a c' → Q a c')
      → Runs m c Q
  Runs-post P Q m c h k = record { at = λ db w. After-post P Q db (m db) k (h.at db w) }

  module _ (law : IsLawful e) where
    After-exec :
        (st : Statement) (c : Contents App) (db : Db) (r : Result Error (List Row) × Db)
        → Inside e st c db r
        → After (λ rows c'. (c' ≡ effect e st c) × Answers e st c rows) db r
    After-exec st c db (ok rows, db') (same, w, answers) = (same, effect e st c, w, (refl, answers))
    After-exec st c db (err x, db') same = same

    pub Runs-exec :
        (st : Statement) (c : Contents App)
        → is_data e st ≡ true
        → Runs (exec st) c (λ rows c'. (c' ≡ effect e st c) × Answers e st c rows)
    Runs-exec st c d = record {
      at = λ db w. After-exec st c db (exec st db) (law.inside_law st db c d w);
    }

    pub Runs-statement :
        (st : Statement) (c : Contents App)
        → is_data e st ≡ true
        → Runs (run_statement e st) c (λ _ c'. c' ≡ effect e st c)
    Runs-statement st c d =
        Runs-bind _ _ (exec st) _ c (Runs-exec st c d) (λ rows c' h. Runs-pure _ tt c' h.0)

    -- What a transaction leaves behind: its value and its contents committed, or nothing changed.
    abbrev pub Atomic :
        {A : Type 0} → (A → Contents App → Type 0) → Db → Result Error A × Db → Type 0
    Atomic P db (ok a, db') = (working db' ≡ none) × P a (committed db')
    Atomic P db (err x, db') = committed db' ≡ committed db

    commit-Atomic :
        {A : Type 0} (P : A → Contents App → Type 0) (a : A) (c : Contents App) (db db' : Db)
        (r : Result Error (List Row) × Db)
        → committed db' ≡ committed db
        → P a c
        → Commits e c db' r
        → Atomic P db ((returned r >>= (λ _. pure {A = Unit {0}} tt) >>= λ _. pure a) db')
    commit-Atomic P a c db db' (ok rows, last) same p (h, idle) = (idle, rw h p)
    commit-Atomic P a c db db' (err x, last) same p h = h ∙ same

    finish-Atomic :
        {A : Type 0} (P : A → Contents App → Type 0) (db : Db) (r : Result Error A × Db)
        → After P db r
        → Atomic P db (finish_transaction e r.0 r.1)
    finish-Atomic P db (ok a, db') (same, c', w, p) =
        commit-Atomic P a c' db db' (exec commit db') same p (law.commit_law db' c' w)
    finish-Atomic P db (err x, db') same = law.rollback_law db' ∙ same

    begin-Atomic :
        {A : Type 0} (P : A → Contents App → Type 0) (body : Action Db Error A) (db db' : Db)
        (r : Result Error (List Row) × Db)
        → committed db' ≡ committed db
        → Begins e db' r
        → Runs body (committed db) P
        → Atomic P db
            ((returned r >>= (λ _. pure {A = Unit {0}} tt) >>= λ _. body_then_finish e body) db')
    begin-Atomic P body db db' (ok rows, last) same (h, w) k =
        finish-Atomic P db (body last)
          (After-trans P db last (body last) (h ∙ same) (k.at last (w ∙ ap some same)))
    begin-Atomic P body db db' (err x, last) same h k = h ∙ same

    connect-Atomic :
        {A : Type 0} (P : A → Contents App → Type 0) (body : Action Db Error A) (db : Db)
        (r : Result Error (Unit {0}) × Db)
        → committed r.1 ≡ committed db
        → Runs body (committed db) P
        → Atomic P db (
            (returned r >>= λ _. run_statement e begin_immediate >>= λ _. body_then_finish e body)
              db)
    connect-Atomic P body db (ok _, db') same k =
        begin-Atomic P body db db' (exec begin_immediate db') same (law.begin_law db') k
    connect-Atomic P body db (err x, db') same k = same

    -- A body that establishes `P` gives a transaction that commits such contents, or changes
    -- nothing that is committed.
    pub in_transaction-Atomic :
        {A : Type 0} (P : A → Contents App → Type 0) (body : Action Db Error A) (db : Db)
        → Runs body (committed db) P
        → Atomic P db (in_transaction e body db)
    in_transaction-Atomic P body db k =
        connect-Atomic P body db (connection db) (law.connection_law db) k
