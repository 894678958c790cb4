-- ===== src/Migration/Tests/Memory.antt =====
-- A database in memory that behaves as SQLite documents it, and the ledger operations on it.
use mathlib.Core.Option
use mathlib.Core.Option.{some-injective, none-ne-some}
use mathlib.Core.Path.{subst}
use toasty_mgr.Prelude.{
  ℕ, ◌≡◌, refl, sym, ap, ◌∙◌, true, Option, none, some, List, [], ◌∷◌, ◌++◌, map, Text, Result, ok,
  err, inl, inr, nat_has_eq,
}
use toasty_mgr.Prelude.Map
use toasty_mgr.Migration.Backend.{with_entry, without_entry}
use toasty_mgr.Migration.Types.{Error, steps_not_positive}
use toasty_mgr.Migration.Sqlite.Rows.{
  Statement, begin_immediate, commit, rollback, create_ledger, table_exists, select_name,
  select_rows, select_newest, insert_row, delete_row, script, Row, fields, scalar, integer, string,
}
use toasty_mgr.Prelude.Int.{pos}
use toasty_mgr.Migration.Sqlite.Database.{
  row_entry, Contents, Engine, pair_row, Answers, Inside, effect, entries,
}
use toasty_mgr.Migration.Tests.Log.{
  Change, added, removed, entries_of, pairs_of, pairs_of-get, newest, IsNewestOf, newest-IsNewestOf,
}

-- The log of the ledger, if it exists, and the scripts that ran.
abbrev pub Store : Type 0
Store = Option (List Change) × List Text

-- What is committed, and what an open transaction works on.
abbrev pub Memory : Type 0
Memory = Store × Option Store

abbrev pub contents : Store → Contents (List Text)
contents s = record { table = Option.map entries_of s.0; app = s.1 }

abbrev log_of : Option (List Change) → List Change
log_of none = []
log_of (some log) = log

abbrev change : Statement → Store → Store
change create_ledger s = (some (log_of s.0), s.1)
change (insert_row source id name) s = (some (added source id name ∷ log_of s.0), s.1)
change (delete_row source id) s = (some (removed source id ∷ log_of s.0), s.1)
change (script sql) s = (s.0, s.1 ++ sql ∷ [])
change _ s = s

abbrev name_rows : Option Text → List Row
name_rows none = []
name_rows (some name) = fields (string name ∷ []) ∷ []

abbrev newest_rows : Option (ℕ × Text) → List Row
newest_rows none = []
newest_rows (some p) = pair_row p ∷ []

abbrev table_rows : Option (List Change) → List Row
table_rows none = []
table_rows (some _) = scalar (integer (pos 1)) ∷ []

abbrev rows_for : Statement → Store → List Row
rows_for table_exists s = table_rows s.0
rows_for (select_name source id) s = name_rows (entries_of (log_of s.0) source id)
rows_for (select_rows source) s = map pair_row (pairs_of source (log_of s.0))
rows_for (select_newest source) s = newest_rows (newest (pairs_of source (log_of s.0)))
rows_for _ s = []

abbrev pub run_on : Statement → Memory → Result Error (List Row) × Memory
run_on st ((s, none)) = (ok (rows_for st s), (change st s, none))
run_on st ((s, some w)) = (ok (rows_for st w), (s, some (change st w)))

abbrev pub in_memory : Statement → Memory → Result Error (List Row) × Memory
in_memory begin_immediate ((s, none)) = (ok [], (s, some s))
in_memory begin_immediate ((s, some w)) = (err steps_not_positive, (s, some w))
in_memory commit ((s, none)) = (err steps_not_positive, (s, none))
in_memory commit ((s, some w)) = (ok [], (w, none))
in_memory rollback db = (ok [], (db.0, none))
in_memory create_ledger db = run_on create_ledger db
in_memory table_exists db = run_on table_exists db
in_memory (select_name source id) db = run_on (select_name source id) db
in_memory (select_rows source) db = run_on (select_rows source) db
in_memory (select_newest source) db = run_on (select_newest source) db
in_memory (insert_row source id name) db = run_on (insert_row source id name) db
in_memory (delete_row source id) db = run_on (delete_row source id) db
in_memory (script sql) db = run_on (script sql) db

abbrev pub memory : Engine
memory = record {
  App = List Text;
  run = λ sql app. app ++ sql ∷ [];
  is_plain = λ _. true;
  statements = λ sql. sql ∷ [];
  Db = Memory;
  committed = λ db. contents db.0;
  working = λ db. Option.map contents db.1;
  connection = λ db. (ok tt, db);
  exec = in_memory;
}

entries-log : (s : Store) → entries_of (log_of s.0) ≡ entries (contents s)
entries-log ((none, app)) = refl
entries-log ((some log, app)) = refl

change-effect :
    (st : Statement) (s : Store) → contents (change st s) ≡ effect memory st (contents s)
change-effect begin_immediate s = refl
change-effect commit s = refl
change-effect rollback s = refl
change-effect create_ledger s = rw (entries-log s) refl
change-effect table_exists s = refl
change-effect (select_name source id) s = refl
change-effect (select_rows source) s = refl
change-effect (select_newest source) s = refl
change-effect (insert_row source id name) s =
    ap (λ l. record { table = some (with_entry (row_entry source id name) l); app = s.1 })
      (entries-log s)
change-effect (delete_row source id) s =
    ap (λ l. record { table = some (without_entry (row_entry source id []) l); app = s.1 })
      (entries-log s)
change-effect (script sql) s = refl

pairs-entries :
    (source : Text) (s : Store) (id : ℕ)
    → entries (contents s) source id ≡ Map.get (pairs_of source (log_of s.0)) id
pairs-entries source s id =
    ap (λ e. e source id) (sym (entries-log s)) ∙ sym (pairs_of-get source (log_of s.0) id)

newest-Answers :
    (source : Text) (s : Store) (o : Option (ℕ × Text))
    → IsNewestOf (pairs_of source (log_of s.0)) o
    → Answers memory (select_newest source) (contents s) (newest_rows o)
newest-Answers source s none h = inl (refl, λ id. pairs-entries source s id ∙ h id)
newest-Answers source s (some (i, n)) (found, beyond) = inr (
  i,
  n,
  refl,
  pairs-entries source s i ∙ found,
  λ later l. pairs-entries source s later ∙ beyond later l,
)

name-Answers :
    (source : Text) (id : ℕ) (s : Store) (o : Option Text)
    → entries (contents s) source id ≡ o
    → Answers memory (select_name source id) (contents s) (name_rows o)
name-Answers source id s none h = inl (refl, h)
name-Answers source id s (some name) h = inr (name, refl, h)

pub rows-Answers : (st : Statement) (s : Store) → Answers memory st (contents s) (rows_for st s)
rows-Answers begin_immediate s = tt
rows-Answers commit s = tt
rows-Answers rollback s = tt
rows-Answers create_ledger s = tt
rows-Answers table_exists ((none, app)) = inl (refl, refl)
rows-Answers table_exists ((some log, app)) = inr refl
rows-Answers (select_name source id) s =
    name-Answers source id s (entries_of (log_of s.0) source id)
      (ap (λ e. e source id) (sym (entries-log s)))
rows-Answers (select_rows source) s =
    (pairs_of source (log_of s.0), refl, λ id. sym (pairs-entries source s id))
rows-Answers (select_newest source) s =
    newest-Answers source s (newest (pairs_of source (log_of s.0)))
      (newest-IsNewestOf (pairs_of source (log_of s.0)))
rows-Answers (insert_row source id name) s = tt
rows-Answers (delete_row source id) s = tt
rows-Answers (script sql) s = tt

pub in_memory-Inside :
    (st : Statement) (s w : Store) (c : Contents (List Text))
    → contents w ≡ c
    → Inside memory st c (s, some w) (run_on st (s, some w))
in_memory-Inside st s w c e = (
  refl,
  ap some (change-effect st w ∙ ap (effect memory st) e),
  subst (λ c. Answers memory st c (rows_for st w)) e (rows-Answers st w),
)
