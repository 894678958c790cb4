-- ===== src/Migration/MySql/Tables.antt =====
-- What the MySQL ledger code relies on from the server and its driver. Every statement commits by
-- itself (`DdlAtomicity::ImplicitCommit`), so there is one current content of the database; a
-- statement that fails has had no effect or all of it.
use toasty_mgr.Prelude.{
  ℕ, ◌≡◌, ◌⊎◌, Bool, true, false, not, ◌&&◌, Option, none, some, List, [], ◌∷◌, map, filter, Text,
  text_eq, nat_eq, is_empty, if◌then◌else◌, Result, ok, err, ◌++◌, ◌<◌,
}
use toasty_mgr.Prelude.Action.{Action}
use toasty_mgr.Migration.Types.{Error}
use toasty_mgr.Migration.Backend.{Ledger, with_entry, without_entry}
use toasty_mgr.Migration.Sqlite.Rows.{Value, unsigned, integer, null, string, Row, fields}
use toasty_mgr.Prelude.Int.{pos}
use toasty_mgr.Migration.Sqlite.Database.{row_entry, rows_of}
use toasty_mgr.Migration.MySql.Statements.{
  Statement, release_lock, create_ledger, create_runs, runs_exists, select_marker, insert_marker,
  set_progress, delete_marker, select_name, select_newest, insert_row, delete_row, script,
}

-- A row of `__toasty_mgr_migration_runs`, without its source.
pub record Mark : Type 0 where
  pub id : ℕ
  pub name : Text
  pub direction : Text
  pub statement_index : ℕ

-- The markers of each source.
abbrev pub Marks : Type 0
Marks = Text → List Mark

abbrev pub marks_of : Option Marks → Marks
marks_of none source = []
marks_of (some t) source = t source

-- The two metadata tables, where they exist, and everything else that the database holds.
pub record Contents (App : Type 0) : Type 0 where
  pub ledger : Option Ledger
  pub runs : Option Marks
  pub app : App

abbrev pub entries : {App : Type 0} → Contents App → Ledger
entries c = rows_of c.ledger

abbrev pub marks : {App : Type 0} → Contents App → Marks
marks c = marks_of c.runs

abbrev pub with_marks : Text → (List Mark → List Mark) → Marks → Marks
with_marks source change all s = if text_eq source s then change (all s) else all s

abbrev pub is_marker : ℕ → Text → Mark → Bool
is_marker id direction m = nat_eq m.id id && text_eq m.direction direction

pub record Server : Type 1 where
  pub App : Type 0
  pub Db : Type 0
  -- the effect of a statement of a migration, and those that leave the metadata tables and the
  -- migration lock alone
  pub run : Text → App → App
  pub is_plain : Text → Bool
  -- `db::Migration::statements` of the toasty crate
  pub statements : Text → List Text
  -- the database's name, hashed by the standard library and formatted
  pub lock_name : Text → Text
  pub contents : Db → Contents App
  -- whether the connection's session holds the lock of the name
  pub is_locked : Db → Text → Bool
  pub connection : Action Db Error (Unit {0})
  pub exec : Statement → Action Db Error (List Row)

abbrev pub mark_row : Mark → Row
mark_row m =
    fields (unsigned m.id ∷ string m.name ∷ string m.direction ∷ unsigned m.statement_index ∷ [])

abbrev pub pair_row : ℕ × Text → Row
pair_row (id, name) = fields (unsigned id ∷ string name ∷ [])

-- One row of one value.
abbrev pub single : Value → List Row
single v = fields (v ∷ []) ∷ []

module _ (e : Server) where
  open e use {App, Db, run, is_plain, contents, is_locked, connection, exec}

  -- The effect of a statement that succeeds.
  abbrev pub effect : Statement → Contents App → Contents App
  effect create_ledger c = record c { ledger = some (entries c) }
  effect create_runs c = record c { runs = some (marks c) }
  effect (insert_marker source id name direction) c = record c {
    runs = some (
        with_marks source
          (λ l.
            l ++ record { id = id; name = name; direction = direction; statement_index = 0 } ∷ [])
          (marks c));
  }
  effect (set_progress index source id direction) c = record c {
    runs = some (
        with_marks source
          (map (λ m. if is_marker id direction m then record m { statement_index = index } else m))
          (marks c));
  }
  effect (delete_marker source id direction) c = record c {
    runs = some (with_marks source (filter (λ m. not (is_marker id direction m))) (marks c));
  }
  effect (insert_row source id name) c = record c {
    ledger = some (with_entry (row_entry source id name) (entries c));
  }
  effect (delete_row source id) c = record c {
    ledger = some (without_entry (row_entry source id []) (entries c));
  }
  effect (script sql) c = record c { app = run sql c.app }
  effect _ c = c

  -- The rows that a query returns: it fails where its table does not exist, and the primary keys
  -- of the tables let a source have an id once.
  abbrev pub Answers : Statement → Contents App → List Row → Type 0
  Answers runs_exists c rows =
      (is_empty rows ≡ true) × (c.runs ≡ none)
      ⊎ (is_empty rows ≡ false) × ((t : Marks) × (c.runs ≡ some t))
  Answers (select_marker source) c rows =
      ((t : Marks) × (c.runs ≡ some t))
      × (((rows ≡ []) × (marks c source ≡ []))
          ⊎ ((m : Mark) × (others : List Mark) × (rows ≡ mark_row m ∷ [])
              × (marks c source ≡ m ∷ others)))
  Answers (select_name source id) c rows =
      ((rows ≡ []) × (entries c source id ≡ none))
      ⊎ ((name : Text) × (rows ≡ fields (string name ∷ []) ∷ [])
          × (entries c source id ≡ some name))
  Answers (select_newest source) c rows =
      ((rows ≡ []) × ((id : ℕ) → entries c source id ≡ none))
      ⊎ ((id : ℕ) × (name : Text) × (rows ≡ pair_row (id, name) ∷ [])
          × (entries c source id ≡ some name)
          × ((later : ℕ) → id < later → entries c source later ≡ none))
  Answers _ c rows = Unit {0}

  abbrev pub Outcome : Statement → Db → Result Error (List Row) × Db → Type 0
  Outcome st db (ok rows, db') =
      (contents db' ≡ effect st (contents db)) × Answers st (contents db) rows
  Outcome st db (err _, db') =
      (contents db' ≡ contents db) ⊎ (contents db' ≡ effect st (contents db))

  -- A script that fails may have changed anything but the metadata.
  abbrev pub Scripted : Text → Db → Result Error (List Row) × Db → Type 0
  Scripted sql db (ok _, db') = contents db' ≡ effect (script sql) (contents db)
  Scripted sql db (err _, db') = (app' : App) × (contents db' ≡ record (contents db) { app = app' })

  -- `RELEASE_LOCK` answers 1 when the session has released the lock of that name, 0 when another
  -- session holds it, and NULL when nobody does.
  abbrev pub Releases : Text → Result Error (List Row) × Db → Type 0
  Releases lock (ok rows, db') =
      (rows ≡ single (integer (pos 1))) × (is_locked db' lock ≡ false)
      ⊎ (rows ≡ single (integer (pos 0)))
      ⊎ (rows ≡ single null)
  Releases lock (err _, db') = Unit {0}

  abbrev pub is_script : Statement → Bool
  is_script (script _) = true
  is_script _ = false

  -- The documented behaviour of the server for the statements above.
  pub record IsLawful : Type 0 where
    pub connection_law : (db : Db) → contents (connection db).1 ≡ contents db
    pub exec_law : (st : Statement) (db : Db) → is_script st ≡ false → Outcome st db (exec st db)
    pub script_law :
        (sql : Text) (db : Db) → is_plain sql ≡ true → Scripted sql db (exec (script sql) db)
    pub release_law : (lock : Text) (db : Db) → Releases lock (exec (release_lock lock) db)
