-- ===== src/Migration/Tests/Markers.antt =====
-- The MySQL ledger on the server in memory: a migration that works, one that fails half-way, and
-- the source that it leaves marked.
use toasty_mgr.Prelude.{
  ◌≡◌, refl, Bool, Result, text_eq, true, false, none, some, [], ◌∷◌, codes, ok, err,
}
use toasty_mgr.Migration.Types.{Error, BackendMigration, steps_not_positive}
use toasty_mgr.Migration.Sqlite.Rows.{value_string, value_i64, value_optional_string, first_value}
use toasty_mgr.Migration.MySql.Statements.{apply_direction, row_fields, value_u64, not_negative}
use toasty_mgr.Migration.MySql.Decoded.{check_marker, current_database, lock_released, joined}
use toasty_mgr.Migration.MySql.Tables.{marks, with_marks}
use toasty_mgr.Migration.MySql.Traces.{Traced}
use toasty_mgr.Migration.MySql.Locked.{Finishes, finish_lock-Finishes}
use toasty_mgr.Migration.MySql.Marked.{mark_at}
use toasty_mgr.Migration.MySql.Applied.{Recorded, Failed, apply_migration-Traced}
use toasty_mgr.Migration.MySql.RolledBack.{RolledBack, NotRolledBack, rollback_migration-Traced}
use toasty_mgr.Migration.MySql.Synced.{Synced, SameMetadata, sync_schema-Traced, sync_schema-fails}
use toasty_mgr.Migration.MySql.Stuck.{
  apply, rollback, Unchanged, SameSource, run_call, run_calls, run_call-refused,
}
use toasty_mgr.Migration.MySql.Stuck.Sequences.{run_calls-SameSource}
use toasty_mgr.Migration.MySql.{
  apply_migration, rollback_migration, sync_schema, finish_lock, with_lock, acquire_lock,
  create_metadata_tables, ensure_no_recovery_marker, create_run_marker, progress_from,
  execute_with_progress, delete_run_marker, ledger_name, record_new, record_found, apply_body,
}
use toasty_mgr.Migration.MySql.Statements.{release_lock}
use toasty_mgr.Migration.MySql.Enums.{
  parse_mysql_enum, strip_prefix, strip_last, read_values, read_value, skip_gaps,
}
use toasty_mgr.Migration.MySql.Enums.RoundTrip.{enum_text, parse_mysql_enum-enum_text}
use toasty_mgr.Migration.Tests.Log.{added}
use toasty_mgr.Migration.Tests.Server.{perform, Memory, contents, server, server-IsLawful}

abbrev users : BackendMigration
users = record {
  source_code = codes "app";
  id = 1;
  name = codes "0000_users";
  sql = codes "CREATE TABLE users";
}

abbrev explosive : BackendMigration
explosive = record {
  source_code = codes "app";
  id = 2;
  name = codes "0001_boom";
  sql = codes "boom";
}

abbrev elsewhere : BackendMigration
elsewhere = record {
  source_code = codes "log";
  id = 1;
  name = codes "0000_log";
  sql = codes "CREATE TABLE log";
}

abbrev empty_server : Memory
empty_server = (none, none, [], false)

-- The server after a migration, and after one that failed.
abbrev with_users : Memory
with_users = (
  some (added (codes "app") 1 (codes "0000_users") ∷ []),
  some (λ _. []),
  codes "CREATE TABLE users" ∷ [],
  false,
)

abbrev exploded : Memory
exploded = (
  some (added (codes "app") 1 (codes "0000_users") ∷ []),
  some (with_marks (codes "app") (λ _. mark_at explosive apply_direction 0 ∷ []) (λ _. [])),
  codes "CREATE TABLE users" ∷ codes "half" ∷ [],
  false,
)

abbrev is_ok : {A : Type 0} → Result Error A → Bool
is_ok (ok _) = true
is_ok (err _) = false

-- The migration runs and leaves no marker.
apply_succeeds :
    (is_ok (apply_migration server users true empty_server).0 ≡ true)
    × ((contents (apply_migration server users true empty_server).1).app
        ≡ codes "CREATE TABLE users" ∷ [])
    × (marks (contents (apply_migration server users true empty_server).1) (codes "app") ≡ [])
unfolding text_eq value_string value_i64 value_optional_string first_value with_lock acquire_lock
    finish_lock create_metadata_tables ensure_no_recovery_marker create_run_marker progress_from
    execute_with_progress delete_run_marker ledger_name record_new record_found apply_body
    apply_migration check_marker current_database lock_released joined row_fields value_u64
    not_negative
apply_succeeds = (refl, refl, refl)

-- The migration fails half-way and leaves its marker.
apply_explodes :
    (is_ok (apply_migration server explosive true with_users).0 ≡ false)
    × (marks (contents (apply_migration server explosive true with_users).1) (codes "app")
        ≡ mark_at explosive apply_direction 0 ∷ [])
unfolding text_eq value_string value_i64 value_optional_string first_value with_lock acquire_lock
    finish_lock create_metadata_tables ensure_no_recovery_marker create_run_marker progress_from
    execute_with_progress delete_run_marker ledger_name record_new record_found apply_body
    apply_migration check_marker current_database lock_released joined row_fields value_u64
    not_negative
apply_explodes = (refl, refl)

is_stuck : marks (contents exploded) (codes "app") ≡ mark_at explosive apply_direction 0 ∷ []
unfolding text_eq
is_stuck = refl

apply_migration-Traced_example :
    Traced server
      (apply_migration server explosive true)
      (contents with_users)
      (Recorded server server-IsLawful explosive true (contents with_users))
      (Failed server server-IsLawful explosive true (contents with_users))
apply_migration-Traced_example =
    apply_migration-Traced server server-IsLawful explosive true (contents with_users) (λ _. refl)

rollback_migration-Traced_example :
    Traced server
      (rollback_migration server users)
      (contents with_users)
      (RolledBack server server-IsLawful users (contents with_users))
      (NotRolledBack server server-IsLawful users (contents with_users))
rollback_migration-Traced_example =
    rollback_migration-Traced server server-IsLawful users (contents with_users) refl

run_call-refused_example :
    ((run_call server (apply users) exploded).0 ≡ false)
    × Unchanged server (contents exploded) (contents (run_call server (apply users) exploded).1)
run_call-refused_example =
    run_call-refused server server-IsLawful (apply users) (mark_at explosive apply_direction 0) []
      exploded is_stuck

run_calls-SameSource_example :
    SameSource server (codes "app") (contents exploded) (
      contents
        (run_calls server (apply users ∷ apply elsewhere ∷ rollback explosive ∷ []) exploded))
unfolding text_eq
run_calls-SameSource_example =
    run_calls-SameSource server server-IsLawful (codes "app")
      (apply users ∷ apply elsewhere ∷ rollback explosive ∷ [])
      (mark_at explosive apply_direction 0) [] exploded refl is_stuck

sync_schema-Traced_example :
    Traced server
      (sync_schema server (codes "app") (codes "ALTER TABLE users"))
      (contents with_users)
      (λ _ c'.
        Synced server server-IsLawful
          (codes "app")
          (codes "ALTER TABLE users")
          (contents with_users)
          c')
      (SameMetadata server server-IsLawful (codes "app") (contents with_users))
sync_schema-Traced_example =
    sync_schema-Traced server server-IsLawful (codes "app") (codes "ALTER TABLE users")
      (contents with_users) refl

sync_schema-fails_example :
    Traced server
      (sync_schema server (codes "app") (codes "CREATE TABLE users"))
      (contents empty_server)
      (λ _ _. ⊥)
      (λ c'. c' ≡ contents empty_server)
sync_schema-fails_example =
    sync_schema-fails server server-IsLawful (codes "app") (codes "CREATE TABLE users")
      (contents empty_server) refl

finish_lock-Finishes_example :
    Finishes server server-IsLawful {A = Bool}
      (codes "app")
      (codes "shop")
      (err steps_not_positive)
      (perform (release_lock (codes "shop")) with_users).0
      (finish_lock server (codes "app") (codes "shop") (err steps_not_positive) with_users)
finish_lock-Finishes_example =
    finish_lock-Finishes server server-IsLawful {A = Bool} (codes "app") (codes "shop")
      (err steps_not_positive) with_users

parse_mysql_enum-enum_text_example :
    parse_mysql_enum (enum_text (codes "it's") (codes "a\\b" ∷ []))
    ≡ ok (codes "it's" ∷ codes "a\\b" ∷ [])
parse_mysql_enum-enum_text_example =
    parse_mysql_enum-enum_text (codes "it's") (codes "a\\b" ∷ []) refl

-- MySQL reports a line feed as a backslash and `n`; the parser reads the value "n".
line_feed_lost : parse_mysql_enum (enum_text (10 ∷ []) []) ≡ ok (codes "n" ∷ [])
unfolding parse_mysql_enum strip_prefix strip_last read_values read_value skip_gaps
line_feed_lost = refl
