-- ===== src/Migration/Sqlite/Database.antt =====
-- What the ledger code relies on from SQLite and its driver: a database with the contents that are
-- committed and, in a transaction, those that the connection works on.
use toasty_mgr.Prelude.{
  ℕ, ◌<◌, ◌≡◌, ◌⊎◌, Bool, true, false, Option, none, some, List, [], ◌∷◌, map, Text, is_empty,
  Result, ok, err, nat_has_eq,
}
use toasty_mgr.Prelude.Action.{Action}
use toasty_mgr.Prelude.Int.{pos}
use toasty_mgr.Prelude.Map
use toasty_mgr.Migration.Types.{BackendMigration, Error}
use toasty_mgr.Migration.Backend.{Ledger, with_entry, without_entry}
use toasty_mgr.Migration.Sqlite.Rows.{
  Statement, begin_immediate, commit, rollback, create_ledger, table_exists, select_name,
  select_rows, select_newest, insert_row, delete_row, script, Row, fields, integer, string,
}

-- The ledger table, if it exists, and everything else that the database holds.
pub record Contents (App : Type 0) : Type 0 where
  pub table : Option Ledger
  pub app : App

abbrev pub rows_of : Option Ledger → Ledger
rows_of none source id = none
rows_of (some t) source id = t source id

abbrev pub entries : {App : Type 0} → Contents App → Ledger
entries c = rows_of c.table

pub record Engine : Type 1 where
  pub App : Type 0
  -- the effect of a statement of a migration, and those that hold no transaction control
  pub run : Text → App → App
  pub is_plain : Text → Bool
  -- `db::Migration::statements` of the toasty crate
  pub statements : Text → List Text
  pub Db : Type 0
  pub committed : Db → Contents App
  pub working : Db → Option (Contents App)
  pub connection : Action Db Error (Unit {0})
  pub exec : Statement → Action Db Error (List Row)

abbrev pub row_entry : Text → ℕ → Text → BackendMigration
row_entry source id name = record { source_code = source; id = id; name = name; sql = [] }

abbrev pub pair_row : ℕ × Text → Row
pair_row (id, name) = fields (integer (pos id) ∷ string name ∷ [])

module _ (e : Engine) where
  open e use {App, run, is_plain, Db, committed, working, connection, exec}

  -- The effect of a statement on the contents.
  abbrev pub effect : Statement → Contents App → Contents App
  effect create_ledger c = record c { table = some (entries c) }
  effect (insert_row source id name) c = record c {
    table = some (with_entry (row_entry source id name) (entries c));
  }
  effect (delete_row source id) c = record c {
    table = some (without_entry (row_entry source id []) (entries c));
  }
  effect (script sql) c = record c { app = run sql c.app }
  effect _ c = c

  -- The rows that a query returns. Ids are not negative (the table's CHECK), and no source has an
  -- id twice (its PRIMARY KEY), so the rows of a source determine its entries.
  abbrev pub Answers : Statement → Contents App → List Row → Type 0
  Answers table_exists c rows = (is_empty rows ≡ true) × (c.table ≡ none) ⊎ (is_empty rows ≡ false)
  Answers (select_name source id) c rows =
      ((rows ≡ []) × (entries c source id ≡ none))
      ⊎ ((name : Text) × (rows ≡ fields (string name ∷ []) ∷ [])
          × (entries c source id ≡ some name))
  Answers (select_rows source) c rows =
      (pairs : List (ℕ × Text)) × (rows ≡ map pair_row pairs)
      × ((id : ℕ) → Map.get pairs id ≡ entries c source id)
  Answers (select_newest source) c rows =
      ((rows ≡ []) × ((id : ℕ) → entries c source id ≡ none))
      ⊎ ((id : ℕ) × (name : Text) × (rows ≡ pair_row (id, name) ∷ [])
          × (entries c source id ≡ some name)
          × ((later : ℕ) → id < later → entries c source later ≡ none))
  Answers _ c rows = Unit {0}

  -- The statements that read or write contents, a script's without transaction control.
  abbrev pub is_data : Statement → Bool
  is_data begin_immediate = false
  is_data commit = false
  is_data rollback = false
  is_data (script sql) = is_plain sql
  is_data _ = true

  abbrev pub is_query : Statement → Bool
  is_query table_exists = true
  is_query (select_rows _) = true
  is_query _ = false

  -- What a statement does inside a transaction on the contents `c`. One that fails changes nothing
  -- that is committed.
  abbrev pub Inside : Statement → Contents App → Db → Result Error (List Row) × Db → Type 0
  Inside st c db (ok rows, db') =
      (committed db' ≡ committed db) × (working db' ≡ some (effect st c)) × Answers st c rows
  Inside st c db (err _, db') = committed db' ≡ committed db

  abbrev pub Outside : Statement → Db → Result Error (List Row) × Db → Type 0
  Outside st db (ok rows, db') =
      (committed db' ≡ committed db) × (working db' ≡ none) × Answers st (committed db) rows
  Outside st db (err _, db') = committed db' ≡ committed db

  -- `BEGIN IMMEDIATE` fails inside a transaction, so when it succeeds it opens one.
  abbrev pub Begins : Db → Result Error (List Row) × Db → Type 0
  Begins db (ok _, db') = (committed db' ≡ committed db) × (working db' ≡ some (committed db))
  Begins db (err _, db') = committed db' ≡ committed db

  -- A `COMMIT` that fails has committed nothing.
  abbrev pub Commits : Contents App → Db → Result Error (List Row) × Db → Type 0
  Commits c db (ok _, db') = (committed db' ≡ c) × (working db' ≡ none)
  Commits c db (err _, db') = committed db' ≡ committed db

  -- The documented behaviour of SQLite's transactions and of the statements above.
  pub record IsLawful : Type 0 where
    pub connection_law : (db : Db) → committed (connection db).1 ≡ committed db
    pub begin_law : (db : Db) → Begins db (exec begin_immediate db)
    pub commit_law :
        (db : Db) (c : Contents App) → working db ≡ some c → Commits c db (exec commit db)
    pub rollback_law : (db : Db) → committed (exec rollback db).1 ≡ committed db
    pub inside_law :
        (st : Statement) (db : Db) (c : Contents App)
        → is_data st ≡ true
        → working db ≡ some c
        → Inside st c db (exec st db)
    pub outside_law :
        (st : Statement) (db : Db)
        → is_query st ≡ true
        → working db ≡ none
        → Outside st db (exec st db)
