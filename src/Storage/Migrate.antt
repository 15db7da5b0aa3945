-- ===== src/Storage/Migrate.antt =====
-- `migrateFrom`: the pending migrations, in one transaction. The driver and SQLite are the record
-- Database over the states D of a database, of which a transaction changes a copy.
use Prim.Native.String.{◌++◌ as str_append}
use orynelo.Prelude.{
  suc, String, List, [], ◌∷◌, Option, none, some, Bool, not, if◌then◌else◌, eqb, ◌&&◌, decimal,
}
use orynelo.Prelude.Int.{ℤ, pos, negsuc, ◌+ℤ◌, ltb_ℤ, pos_part, neg_part}
use orynelo.Storage.Schema.{Migration, migrations, current_schema_version}

-- A call that may fail gives no state.
pub record Database (D : Type 0) : Type 0 where
  pub execute : D → String → List String → Option D
  pub begin_tx : D → Option D
  pub commit : D → Option D
  pub user_version : D → Option ℤ

-- Why a migration was not made.
pub data MigrationFault : Type 0 where
  newer_schema missing_migration begin_failed apply_failed commit_failed : MigrationFault

abbrev pub same_ℤ : ℤ → ℤ → Bool
same_ℤ a b = eqb (pos_part a) (pos_part b) && eqb (neg_part a) (neg_part b)

-- The loop that collects the pending migrations; a gap between versions ends it.
unfoldable pub pending_from : ℤ → List Migration → Option (List Migration)
unfolding ◌+ℤ◌
pending_from version [] = some []
pending_from version (item ∷ items) =
    let skipped = pending_from version items in
    let taken = pending_from item.version items in
    if not (ltb_ℤ version item.version)
    then skipped
    else if same_ℤ item.version (version +ℤ pos 1)
    then elim taken [ none ↦ none | some rest ↦ some (item ∷ rest) ]
    else none

abbrev pub version_text : ℤ → String
version_text (pos n) = decimal n
version_text (negsuc n) = str_append "-" (decimal (suc n))

abbrev pub record_version : String
record_version =
    "INSERT INTO metadata(key, value) VALUES('schema_version', ?)\n\t\t ON CONFLICT(key) DO UPDATE SET value = excluded.value"

unfoldable pub set_version : ℤ → String
unfolding decimal
set_version v = str_append "PRAGMA user_version = " (version_text v)

abbrev pub and_then : {A B : Type 0} → Option A → (A → Option B) → Option B
and_then none f = none
and_then (some a) f = f a

module _ {D : Type 0} (database : Database D) where
  unfoldable pub execute_all : D → List String → Option D
  execute_all d [] = some d
  execute_all d (statement ∷ rest) =
      and_then (database.execute d statement []) (λ next. execute_all next rest)

  unfoldable pub apply_migration_tx : D → Migration → Option D
  unfolding execute_all set_version
  apply_migration_tx tx item = and_then (execute_all tx item.statements) (λ changed.
      and_then (database.execute changed record_version (version_text item.version ∷ []))
        (λ recorded. database.execute recorded (set_version item.version) []))

  unfoldable pub apply_all : D → List Migration → Option D
  unfolding apply_migration_tx
  apply_all tx [] = some tx
  apply_all tx (item ∷ items) = and_then (apply_migration_tx tx item) (λ next. apply_all next items)

  -- A fault leaves the state of the database, since the transaction is rolled back.
  abbrev pub committed : D → Option D → Option MigrationFault × D
  committed db none = (some commit_failed, db)
  committed db (some done) = (none, done)

  abbrev pub applied : D → Option D → Option MigrationFault × D
  applied db none = (some apply_failed, db)
  applied db (some tx) = committed db (database.commit tx)

  abbrev pub begun : D → List Migration → Option D → Option MigrationFault × D
  begun db items none = (some begin_failed, db)
  begun db items (some tx) = applied db (apply_all tx items)

  abbrev pub chain : D → Option (List Migration) → Option MigrationFault × D
  chain db none = (some missing_migration, db)
  chain db (some []) = (none, db)
  chain db (some (item ∷ items)) = begun db (item ∷ items) (database.begin_tx db)

  -- `migrateFrom`: the fault, if there was one, and the database after it.
  unfoldable pub migrate_from : D → ℤ → Option MigrationFault × D
  unfolding pending_from apply_all
  migrate_from db version =
      if ltb_ℤ current_schema_version version
      then (some newer_schema, db)
      else chain db (pending_from version migrations)
