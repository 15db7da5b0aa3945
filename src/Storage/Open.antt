-- ===== src/Storage/Open.antt =====
-- `OpenContext`: a database is configured, checked, copied and migrated before it is used. What the
-- file system says, and the copy that `createMigrationBackup` makes, is the record Surroundings.
use text.Mathlib.Text.{starts_with}
use orynelo.Prelude.{
  String, List, [], ◌∷◌, Option, none, some, Bool, true, false, not, if◌then◌else◌, ◌&&◌, ◌||◌,
  ◌==◌, name_equality, trim_text, equal_fold, every,
}
use orynelo.Prelude.Int.{ℤ, pos, ltb_ℤ}
use orynelo.Storage.Schema.{current_schema_version}
use orynelo.Storage.Migrate.{Database, MigrationFault, execute_all, migrate_from, and_then, same_ℤ}

-- What `os.Lstat` says of the path.
pub data FileInfo : Type 0 where
  missing unreadable : FileInfo
  present : Bool → Bool → FileInfo

pub record BackupInfo : Type 0 where
  pub path : String
  pub checksum : String

pub record Surroundings (D : Type 0) : Type 0 where
  pub database : Database D
  pub lstat : FileInfo
  pub prepared : Bool
  pub connection : Option D
  pub foreign_keys : D → Option ℤ
  pub quick_check_rows : D → Option (List String)
  pub create_backup : D → ℤ → Option BackupInfo
  pub protected : Bool

pub data OpenFault : Type 0 where
  path_is_empty inspect_failed prepare_failed open_failed configure_failed version_unreadable :
      OpenFault
  integrity_failed backup_failed record_failed protect_failed : OpenFault
  migration_failed : ℤ → Option BackupInfo → MigrationFault → OpenFault
  schema_is_newer : OpenFault

-- The store, or the fault with the database as it is left, where that is known.
pub data Opening (D : Type 0) : Type 0 where
  opened : D → Option BackupInfo → Opening D
  refused : OpenFault → Option D → Opening D

unfoldable pub is_memory_database : String → Bool
is_memory_database path = path == ":memory:" || starts_with path "file::memory:"

-- `info.Mode().IsRegular() && info.Size() > 0`
abbrev existed_as : FileInfo → Bool
existed_as (present regular filled) = regular && filled
existed_as _ = false

abbrev pub is_unreadable : FileInfo → Bool
is_unreadable unreadable = true
is_unreadable _ = false

-- Every row of the check says ok, and there is one.
abbrev says_ok : List String → Bool
says_ok [] = false
says_ok (row ∷ rows) = every (λ message. equal_fold (trim_text message) "ok") (row ∷ rows)

abbrev rows_ok : Option (List String) → Bool
rows_ok none = false
rows_ok (some rows) = says_ok rows

abbrev configuration : List String
configuration =
    "PRAGMA foreign_keys = ON" ∷ "PRAGMA busy_timeout = 5000" ∷ "PRAGMA journal_mode = WAL"
    ∷ "PRAGMA synchronous = NORMAL" ∷ []

abbrev pub record_snapshot_version : String
record_snapshot_version =
    "INSERT INTO metadata(key, value) VALUES('snapshot_schema_version', ?)\n\t\t ON CONFLICT(key) DO UPDATE SET value = excluded.value"

module _ {D : Type 0} (around : Surroundings D) (path : String) where
  unfoldable pub quick_check : D → Bool
  unfolding trim_text equal_fold
  quick_check d = rows_ok (around.quick_check_rows d)

  abbrev enforced : D → Option ℤ → Option D
  enforced d none = none
  enforced d (some value) = if same_ℤ value (pos 1) then some d else none

  unfoldable pub configure : D → Option D
  unfolding execute_all
  configure d =
      and_then (execute_all around.database d configuration)
        (λ set. enforced set (around.foreign_keys set))

  abbrev pub existed : Bool
  existed = not (is_memory_database path) && existed_as around.lstat

  -- An older database that was there before is checked and copied first.
  abbrev pub needs_backup : ℤ → Bool
  needs_backup version =
      ltb_ℤ version current_schema_version && existed && not (is_memory_database path)

  abbrev pub protect : D → Option BackupInfo → Opening D
  protect d backup =
      if not (is_memory_database path) && not around.protected
      then refused protect_failed (some d)
      else opened d backup

  abbrev pub recorded : D → Option BackupInfo → Option D → Opening D
  recorded d backup none = refused record_failed (some d)
  recorded d backup (some next) = protect next backup

  abbrev pub record_snapshot : D → Option BackupInfo → Opening D
  record_snapshot d backup =
      recorded d backup (around.database.execute d record_snapshot_version ("1" ∷ []))

  abbrev pub after_migration : ℤ → Option BackupInfo → Option MigrationFault × D → Opening D
  after_migration version backup (some fault, d) =
      refused (migration_failed version backup fault) (some d)
  after_migration version backup (none, d) = record_snapshot d backup

  abbrev pub migrate : D → ℤ → Option BackupInfo → Opening D
  migrate d version backup =
      if ltb_ℤ current_schema_version version
      then refused schema_is_newer (some d)
      else after_migration version backup (migrate_from around.database d version)

  abbrev pub with_backup : D → ℤ → Option BackupInfo → Opening D
  with_backup d version none = refused backup_failed (some d)
  with_backup d version (some info) = migrate d version (some info)

  abbrev pub upgrade : D → ℤ → Opening D
  upgrade d version =
      if needs_backup version
      then if quick_check d
        then with_backup d version (around.create_backup d version)
        else refused integrity_failed (some d)
      else migrate d version none

  abbrev pub read_version : D → Option ℤ → Opening D
  read_version d none = refused version_unreadable (some d)
  read_version d (some version) = upgrade d version

  abbrev pub configured : D → Option D → Opening D
  configured d none = refused configure_failed none
  configured d (some set) = read_version set (around.database.user_version set)

  abbrev pub connect : Option D → Opening D
  connect none = refused open_failed none
  connect (some d) = configured d (configure d)

  unfoldable pub open_context : Opening D
  unfolding is_memory_database quick_check configure migrate_from trim_text
  open_context =
      if trim_text path == ""
      then refused path_is_empty none
      else if not (is_memory_database path) && is_unreadable around.lstat
      then refused inspect_failed none
      else if not (is_memory_database path) && not around.prepared
      then refused prepare_failed none
      else connect around.connection
