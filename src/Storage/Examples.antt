-- ===== src/Storage/Examples.antt =====
-- A database that knows its version only, at version 1.
use orynelo.Prelude.{
  ◌≡◌, refl, sym, ap, ◌∙◌, String, List, [], ◌∷◌, Option, none, some, true, ◌==◌, name_equality,
  if◌then◌else◌, Memᴰ, head, tail, not-nil,
}
use orynelo.Prelude.Int.{ℤ, pos}
use orynelo.Storage.{
  Database, Migration, migrations, migrate_from, Surroundings, present, open_context, opened,
}
use orynelo.Storage.Migrate.{set_version}
use orynelo.Storage.Atomic.{KeepsVersion, IsAtomic, migrate_from-IsAtomic}
use orynelo.Storage.Guarded.{KeepsSchema, IsGuarded, open_context-IsGuarded}

-- The pragmas of the three versions, and any other statement, which changes no version.
abbrev answer : ℤ → String → List String → Option ℤ
answer d statement arguments =
    if statement == "PRAGMA user_version = 1"
    then some (pos 1)
    else if statement == "PRAGMA user_version = 2"
    then some (pos 2)
    else if statement == "PRAGMA user_version = 3"
    then some (pos 3)
    else some d

abbrev database : Database ℤ
database = record {
  execute = answer;
  begin_tx = λ d. some d;
  commit = λ d. some d;
  user_version = λ d. some d;
}

at_version :
    (d : ℤ) {k v : ℤ}
    → v ≡ k
    → answer d (set_version k) [] ≡ some k
    → answer d (set_version v) [] ≡ some v
at_version d e h = rw (e) h

keeps : KeepsVersion database
unfolding set_version
keeps = record { sets = sets; begins = λ db tx h. sym h; commits = λ tx done h. sym h }
  where
    sets :
        (item : Migration)
        → Memᴰ item migrations
        → (d next : ℤ) → answer d (set_version item.version) [] ≡ some next
        → some next ≡ some item.version
    sets item (head e) d next h = sym h ∙ at_version d (ap (λ (i : Migration). i.version) e) refl
    sets item (tail (head e)) d next h =
        sym h ∙ at_version d (ap (λ (i : Migration). i.version) e) refl
    sets item (tail (tail (head e))) d next h =
        sym h ∙ at_version d (ap (λ (i : Migration). i.version) e) refl
    sets item (tail (tail (tail m))) d next h = absurd (not-nil m)

migrated : migrate_from database (pos 1) (pos 1) ≡ (none, pos 3)
unfolding migrate_from
migrated = refl

migrate_from-IsAtomic_example :
    IsAtomic database keeps (pos 1) (migrate_from database (pos 1) (pos 1))
migrate_from-IsAtomic_example = migrate_from-IsAtomic database keeps (pos 1) (pos 1) refl

abbrev around : Surroundings ℤ
around = record {
  database = database;
  lstat = present true true;
  prepared = true;
  connection = some (pos 1);
  foreign_keys = λ d. some (pos 1);
  quick_check_rows = λ d. some ("ok" ∷ []);
  create_backup = λ d version. some (record { path = "copy"; checksum = "00" });
  protected = true;
}

opened_with_backup :
    open_context around "history.db"
    ≡ opened (pos 3) (some (record { path = "copy"; checksum = "00" }))
unfolding open_context
opened_with_backup = refl

keeps_schema : KeepsSchema around "history.db"
keeps_schema = record { versions = keeps; rows = λ d next h. sym h }

open_context-IsGuarded_example : IsGuarded around "history.db" (open_context around "history.db")
open_context-IsGuarded_example = open_context-IsGuarded around "history.db" keeps_schema
