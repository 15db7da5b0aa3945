-- ===== src/Storage/Atomic.antt =====
-- What `migrateFrom` leaves of a database, and at which version.
use orynelo.Prelude.{
  ◌≡◌, refl, ap, ◌∙◌, ◌⊎◌, inl, inr, List, [], ◌∷◌, Option, none, some, false, not, arith, if_cases,
  AllSome, AllSome-imp, All, Memᴰ, head, tail,
}
use orynelo.Prelude.Int.{ℤ, pos, ◌+ℤ◌, ltb_ℤ, eq_of_parts}
use orynelo.Storage.Schema.{Migration, migrations, current_schema_version}
use orynelo.Storage.Migrate.{
  Database, MigrationFault, newer_schema, missing_migration, begin_failed, apply_failed,
  commit_failed, same_ℤ, pending_from, set_version, execute_all, apply_migration_tx, apply_all,
  and_then, version_text, record_version, committed, applied, begun, chain, migrate_from,
}

-- What SQLite and its driver promise: the pragma sets the version that is read back, and the begin
-- and the commit of a transaction keep it.
pub record KeepsVersion {D : Type 0} (database : Database D) : Type 0 where
  pub sets :
      (item : Migration)
      → Memᴰ item migrations
      → (d next : D) → database.execute d (set_version item.version) [] ≡ some next
      → database.user_version next ≡ some item.version
  pub begins :
      (db tx : D)
      → database.begin_tx db ≡ some tx
      → database.user_version tx ≡ database.user_version db
  pub commits :
      (tx done : D)
      → database.commit tx ≡ some done
      → database.user_version done ≡ database.user_version tx

-- The version after the pending migrations.
abbrev last_version : ℤ → List Migration → ℤ
last_version v [] = v
last_version v (item ∷ items) = last_version item.version items

abbrev Ends : ℤ → List Migration → Type 0
Ends version [] = ltb_ℤ version current_schema_version ≡ false
Ends version (item ∷ items) =
    (last_version item.version items ≡ current_schema_version)
    × All (λ i. Memᴰ i migrations) (item ∷ items)

-- The chain of the pending migrations is empty only at the current version and else ends there.
pending-Ends : (version : ℤ) → AllSome (Ends version) (pending_from version migrations)
unfolding pending_from
pending-Ends version =
    let second = tail (head refl) in
    let third = tail (tail (head refl)) in
    if_cases (AllSome (Ends version)) (not (ltb_ℤ version (pos 1)))
      (λ _.
        if_cases (AllSome (Ends version)) (not (ltb_ℤ version (pos 2)))
          (λ _.
            if_cases (AllSome (Ends version)) (not (ltb_ℤ version (pos 3))) (λ h. ground arith)
              (λ _.
                if_cases (AllSome (Ends version)) (same_ℤ (pos 3) (version +ℤ pos 1))
                  (λ _. (refl, (third, tt))) (λ _. tt)))
          (λ _.
            if_cases (AllSome (Ends version)) (same_ℤ (pos 2) (version +ℤ pos 1))
              (λ _. (refl, (second, (third, tt)))) (λ _. tt)))
      (λ _.
        if_cases (AllSome (Ends version)) (same_ℤ (pos 1) (version +ℤ pos 1))
          (λ _. (refl, (head refl, (second, (third, tt))))) (λ _. tt))

module _ {D : Type 0} (database : Database D) (keeps : KeepsVersion database) where
  apply_migration_tx-version :
      (tx : D) (item : Migration)
      → Memᴰ item migrations
      → AllSome
          (λ d. database.user_version d ≡ some item.version)
          (apply_migration_tx database tx item)
  unfolding apply_migration_tx
  apply_migration_tx-version tx item m = of_statements (execute_all database tx item.statements)
    where
      of_pragma :
          (recorded : D) (o : Option D)
          → database.execute recorded (set_version item.version) [] ≡ o
          → AllSome (λ d. database.user_version d ≡ some item.version) o
      of_pragma recorded none e = tt
      of_pragma recorded (some d) e = keeps.sets item m recorded d e

      of_record :
          (o : Option D)
          → AllSome
              (λ d. database.user_version d ≡ some item.version)
              (and_then o (λ recorded. database.execute recorded (set_version item.version) []))
      of_record none = tt
      of_record (some recorded) =
          of_pragma recorded (database.execute recorded (set_version item.version) []) refl

      of_statements :
          (o : Option D)
          → AllSome
              (λ d. database.user_version d ≡ some item.version)
              (and_then o (λ changed.
                and_then
                  (database.execute changed record_version (version_text item.version ∷ []))
                  (λ recorded. database.execute recorded (set_version item.version) [])))
      of_statements none = tt
      of_statements (some changed) =
          of_record (database.execute changed record_version (version_text item.version ∷ []))

  apply_all-version :
      (tx : D) (v : ℤ) (items : List Migration)
      → All (λ i. Memᴰ i migrations) items
      → database.user_version tx ≡ some v
      → AllSome
          (λ d. database.user_version d ≡ some (last_version v items))
          (apply_all database tx items)
  unfolding apply_all
  apply_all-version tx v [] m h = h
  apply_all-version tx v (item ∷ items) m h =
      of_first (apply_migration_tx database tx item) (apply_migration_tx-version tx item m.0)
        (λ next e. apply_all-version next item.version items m.1 e)
    where
      of_first :
          (o : Option D)
          → AllSome (λ d. database.user_version d ≡ some item.version) o
          → ((next : D)
              → database.user_version next ≡ some item.version
              → AllSome
                  (λ d. database.user_version d ≡ some (last_version item.version items))
                  (apply_all database next items))
          → AllSome
              (λ d. database.user_version d ≡ some (last_version item.version items))
              (and_then o (λ next. apply_all database next items))
      of_first none h rest = tt
      of_first (some next) h rest = rest next h

  -- Either the database is at the current version, or there is a fault and it is as it was.
  abbrev pub IsAtomic : D → Option MigrationFault × D → Type 0
  IsAtomic db result =
      ((result.0 ≡ none) × (database.user_version result.1 ≡ some current_schema_version))
      ⊎ ((f : MigrationFault) × (result.0 ≡ some f) × (result.1 ≡ db))

  committed-IsAtomic :
      (db tx : D)
      → database.user_version tx ≡ some current_schema_version
      → IsAtomic db (committed database db (database.commit tx))
  committed-IsAtomic db tx h = of_commit (database.commit tx) refl
    where
      of_commit : (o : Option D) → database.commit tx ≡ o → IsAtomic db (committed database db o)
      of_commit none e = inr (commit_failed, refl, refl)
      of_commit (some done) e = inl (refl, keeps.commits tx done e ∙ h)

  applied-IsAtomic :
      (db : D) (o : Option D)
      → AllSome (λ d. database.user_version d ≡ some current_schema_version) o
      → IsAtomic db (applied database db o)
  applied-IsAtomic db none h = inr (apply_failed, refl, refl)
  applied-IsAtomic db (some tx) h = committed-IsAtomic db tx h

  begun-IsAtomic :
      (db : D) (v : ℤ) (items : List Migration)
      → database.user_version db ≡ some v
      → last_version v items ≡ current_schema_version
      → All (λ i. Memᴰ i migrations) items
      → IsAtomic db (begun database db items (database.begin_tx db))
  begun-IsAtomic db v items h e m = of_begin (database.begin_tx db) refl
    where
      of_begin : (o : Option D) → database.begin_tx db ≡ o → IsAtomic db (begun database db items o)
      of_begin none b = inr (begin_failed, refl, refl)
      of_begin (some tx) b = applied-IsAtomic db (apply_all database tx items) (
          AllSome-imp (λ d k. k ∙ ap some e) (apply_all database tx items)
            (apply_all-version tx v items m (keeps.begins db tx b ∙ h)))

  chain-IsAtomic :
      (db : D) (v : ℤ) (o : Option (List Migration))
      → database.user_version db ≡ some v
      → ltb_ℤ current_schema_version v ≡ false
      → AllSome (Ends v) o
      → IsAtomic db (chain database db o)
  chain-IsAtomic db v none h le e = inr (missing_migration, refl, refl)
  chain-IsAtomic db v (some []) h le e =
      inl (refl, h ∙ ap some (eq_of_parts v current_schema_version (ground arith)))
  chain-IsAtomic db v (some (item ∷ items)) h le e = begun-IsAtomic db v (item ∷ items) h e.0 e.1

  -- A migration from the version that the database has either ends without a fault at the current
  -- version of the schema, or ends with a fault and leaves the database as it was, whichever call of
  -- the database fails.
  pub migrate_from-IsAtomic :
      (db : D) (version : ℤ)
      → database.user_version db ≡ some version
      → IsAtomic db (migrate_from database db version)
  unfolding migrate_from
  migrate_from-IsAtomic db version h =
      if_cases (IsAtomic db) (ltb_ℤ current_schema_version version)
        (λ _. inr (newer_schema, refl, refl))
        (λ le.
          chain-IsAtomic db version (pending_from version migrations) h le (pending-Ends version))
