-- ===== src/Migration/Tests/Server.antt =====
-- A database server in memory that behaves as MySQL documents it; the script `boom` fails half-way.
use mathlib.Core.Bool.{true≢false}
use mathlib.Core.Option
use toasty_mgr.Prelude.{
  ℕ, ◌≡◌, refl, sym, ap, ◌∙◌, Bool, true, false, not, Option, none, some, List, [], ◌∷◌, ◌++◌, map,
  filter, Text, text_eq, codes, if◌then◌else◌, Result, ok, err, inl, inr, nat_has_eq,
}
use toasty_mgr.Prelude.Map
use toasty_mgr.Prelude.Int.{pos}
use toasty_mgr.Migration.Backend.{with_entry, without_entry}
use toasty_mgr.Migration.Types.{Error, steps_not_positive}
use toasty_mgr.Migration.Sqlite.Rows.{Row, fields, integer, string, null}
use toasty_mgr.Migration.Sqlite.Database.{row_entry}
use toasty_mgr.Migration.MySql.Statements.{
  Statement, select_database, release_lock, get_lock, create_ledger, create_runs, ledger_exists,
  runs_exists, select_marker, insert_marker, set_progress, delete_marker, select_name, select_rows,
  select_newest, insert_row, delete_row, script,
}
use toasty_mgr.Migration.MySql.Tables.{
  Mark, Marks, marks_of, Contents, Server, IsLawful, entries, with_marks, is_marker, mark_row,
  pair_row, Answers, Outcome, Releases, Scripted, is_script,
}
use toasty_mgr.Migration.Tests.Log.{
  Change, added, removed, entries_of, pairs_of, pairs_of-get, newest, IsNewestOf, newest-IsNewestOf,
}

-- The log of the ledger and the markers, if their tables exist, the scripts that ran, and the lock.
abbrev pub Memory : Type 0
Memory = Option (List Change) × Option Marks × List Text × Bool

abbrev pub contents : Memory → Contents (List Text)
contents db = record { ledger = Option.map entries_of db.0; runs = db.1; app = db.2 }

abbrev log_of : Option (List Change) → List Change
log_of none = []
log_of (some log) = log

abbrev change : Statement → Memory → Memory
change create_ledger (log, runs, app, held) = (some (log_of log), runs, app, held)
change create_runs (log, runs, app, held) = (log, some (marks_of runs), app, held)
change (insert_marker source id name direction) (log, runs, app, held) = (
  log,
  some (
      with_marks source
        (λ l. l ++ record { id = id; name = name; direction = direction; statement_index = 0 } ∷ [])
        (marks_of runs)),
  app,
  held,
)
change (set_progress index source id direction) (log, runs, app, held) = (
  log,
  some (
      with_marks source
        (map (λ m. if is_marker id direction m then record m { statement_index = index } else m))
        (marks_of runs)),
  app,
  held,
)
change (delete_marker source id direction) (log, runs, app, held) = (
  log,
  some (with_marks source (filter (λ m. not (is_marker id direction m))) (marks_of runs)),
  app,
  held,
)
change (insert_row source id name) (log, runs, app, held) =
    (some (added source id name ∷ log_of log), runs, app, held)
change (delete_row source id) (log, runs, app, held) =
    (some (removed source id ∷ log_of log), runs, app, held)
change (script sql) (log, runs, app, held) = (log, runs, app ++ sql ∷ [], held)
change (release_lock lock) (log, runs, app, held) = (log, runs, app, false)
change (get_lock lock) (log, runs, app, held) = (log, runs, app, true)
change _ db = db

abbrev table_rows : {A : Type 0} → Option A → List Row
table_rows none = []
table_rows (some _) = fields (integer (pos 1) ∷ []) ∷ []

abbrev mark_rows : List Mark → List Row
mark_rows [] = []
mark_rows (m ∷ others) = mark_row m ∷ []

abbrev name_rows : Option Text → List Row
name_rows none = []
name_rows (some name) = fields (string name ∷ []) ∷ []

abbrev newest_rows : Option (ℕ × Text) → List Row
newest_rows none = []
newest_rows (some p) = pair_row p ∷ []

abbrev rows_for : Statement → Memory → List Row
rows_for select_database db = fields (string (codes "shop") ∷ []) ∷ []
rows_for (release_lock lock) db = fields ((if db.3 then integer (pos 1) else null) ∷ []) ∷ []
rows_for (get_lock lock) db = fields (integer (pos 1) ∷ []) ∷ []
rows_for ledger_exists db = table_rows db.0
rows_for runs_exists db = table_rows db.1
rows_for (select_marker source) db = mark_rows (marks_of db.1 source)
rows_for (select_name source id) db = name_rows (entries_of (log_of db.0) source id)
rows_for (select_rows source) db = map pair_row (pairs_of source (log_of db.0))
rows_for (select_newest source) db = newest_rows (newest (pairs_of source (log_of db.0)))
rows_for _ db = []

abbrev performed : Statement → Memory → Result Error (List Row) × Memory
performed st db = (ok (rows_for st db), change st db)

abbrev selected : Text → Memory → Result Error (List Row) × Memory
selected source (log, none, app, held) = (err steps_not_positive, (log, none, app, held))
selected source (log, some runs, app, held) =
    performed (select_marker source) (log, some runs, app, held)

abbrev scripted : Text → Memory → Result Error (List Row) × Memory
scripted sql (log, runs, app, held) =
    if text_eq sql (codes "boom")
    then (err steps_not_positive, (log, runs, app ++ codes "half" ∷ [], held))
    else performed (script sql) (log, runs, app, held)

abbrev pub perform : Statement → Memory → Result Error (List Row) × Memory
perform (select_marker source) db = selected source db
perform (script sql) db = scripted sql db
perform select_database db = performed select_database db
perform (release_lock lock) db = performed (release_lock lock) db
perform (get_lock lock) db = performed (get_lock lock) db
perform create_ledger db = performed create_ledger db
perform create_runs db = performed create_runs db
perform ledger_exists db = performed ledger_exists db
perform runs_exists db = performed runs_exists db
perform (insert_marker s i n d) db = performed (insert_marker s i n d) db
perform (set_progress k s i d) db = performed (set_progress k s i d) db
perform (delete_marker s i d) db = performed (delete_marker s i d) db
perform (select_name s i) db = performed (select_name s i) db
perform (select_rows s) db = performed (select_rows s) db
perform (select_newest s) db = performed (select_newest s) db
perform (insert_row s i n) db = performed (insert_row s i n) db
perform (delete_row s i) db = performed (delete_row s i) db

abbrev pub server : Server
server = record {
  App = List Text;
  Db = Memory;
  run = λ sql app. app ++ sql ∷ [];
  is_plain = λ _. true;
  statements = λ sql. sql ∷ [];
  lock_name = λ name. name;
  contents = contents;
  is_locked = λ db lock. db.3;
  connection = λ db. (ok tt, db);
  exec = perform;
}

entries-log : (db : Memory) → entries_of (log_of db.0) ≡ entries (contents db)
entries-log (none, runs, app, held) = refl
entries-log (some log, runs, app, held) = refl

pairs-entries :
    (source : Text) (db : Memory) (id : ℕ)
    → entries (contents db) source id ≡ Map.get (pairs_of source (log_of db.0)) id
pairs-entries source db id =
    ap (λ e. e source id) (sym (entries-log db)) ∙ sym (pairs_of-get source (log_of db.0) id)

newest-Answers :
    (source : Text) (db : Memory) (o : Option (ℕ × Text))
    → IsNewestOf (pairs_of source (log_of db.0)) o
    → Answers server (select_newest source) (contents db) (newest_rows o)
newest-Answers source db none h = inl (refl, λ id. pairs-entries source db id ∙ h id)
newest-Answers source db (some (i, n)) (found, beyond) = inr (
  i,
  n,
  refl,
  pairs-entries source db i ∙ found,
  λ later l. pairs-entries source db later ∙ beyond later l,
)

name-Answers :
    (source : Text) (id : ℕ) (db : Memory) (o : Option Text)
    → entries (contents db) source id ≡ o
    → Answers server (select_name source id) (contents db) (name_rows o)
name-Answers source id db none h = inl (refl, h)
name-Answers source id db (some name) h = inr (name, refl, h)

mark-Answers :
    (source : Text) (log : Option (List Change)) (runs : Marks) (app : List Text) (held : Bool)
    (l : List Mark)
    → runs source ≡ l
    → Answers server (select_marker source) (contents (log, some runs, app, held)) (mark_rows l)
mark-Answers source log runs app held [] h = ((runs, refl), inl (refl, h))
mark-Answers source log runs app held (m ∷ others) h = ((runs, refl), inr (m, others, refl, h))

outcome :
    (st : Statement) (db : Memory)
    → is_script server st ≡ false
    → Outcome server st db (perform st db)
outcome (select_marker source) (log, none, app, held) h = inl refl
outcome (select_marker source) (log, some runs, app, held) h =
    (refl, mark-Answers source log runs app held (runs source) refl)
outcome (script sql) db h = absurd (true≢false h)
outcome select_database db h = (refl, tt)
outcome (release_lock lock) db h = (refl, tt)
outcome (get_lock lock) db h = (refl, tt)
outcome create_ledger (none, runs, app, held) h = (refl, tt)
outcome create_ledger (some log, runs, app, held) h = (refl, tt)
outcome create_runs db h = (refl, tt)
outcome ledger_exists db h = (refl, tt)
outcome runs_exists (log, none, app, held) h = (refl, inl (refl, refl))
outcome runs_exists (log, some runs, app, held) h = (refl, inr (refl, (runs, refl)))
outcome (insert_marker s i n d) db h = (refl, tt)
outcome (set_progress k s i d) db h = (refl, tt)
outcome (delete_marker s i d) db h = (refl, tt)
outcome (select_name s i) db h = (
  refl,
  name-Answers s i db (entries_of (log_of db.0) s i) (ap (λ e. e s i) (sym (entries-log db))),
)
outcome (select_rows s) db h = (refl, tt)
outcome (select_newest s) db h = (
  refl,
  newest-Answers s db (newest (pairs_of s (log_of db.0)))
      (newest-IsNewestOf (pairs_of s (log_of db.0))),
)
outcome (insert_row s i n) db h = (
  ap (λ l. record { ledger = some (with_entry (row_entry s i n) l); runs = db.1; app = db.2 })
      (entries-log db),
  tt,
)
outcome (delete_row s i) db h = (
  ap (λ l. record { ledger = some (without_entry (row_entry s i []) l); runs = db.1; app = db.2 })
      (entries-log db),
  tt,
)

scripted_lem :
    (sql : Text) (db : Memory) (bad : Bool)
    → Scripted server sql db (
        if bad
        then (err steps_not_positive, (db.0, db.1, db.2 ++ codes "half" ∷ [], db.3))
        else performed (script sql) db)
scripted_lem sql db true = (db.2 ++ codes "half" ∷ [], refl)
scripted_lem sql db false = refl

released_lem :
    (lock : Text) (db : Memory) (held : Bool)
    → db.3 ≡ held
    → Releases server lock (performed (release_lock lock) db)
released_lem lock db true h = inl (rw h refl, refl)
released_lem lock db false h = inr (inr (rw h refl))

-- The memory keeps the documented behaviour.
pub server-IsLawful : IsLawful server
server-IsLawful = record {
  connection_law = λ db. refl;
  exec_law = outcome;
  script_law = λ sql db _. scripted_lem sql db (text_eq sql (codes "boom"));
  release_law = λ lock db. released_lem lock db db.3 refl;
}
