-- ===== src/Storage/Guarded.antt =====
-- How `OpenContext` guards an existing database: its quick check, its copy and its version.
use orynelo.Prelude.{
  ◌≡◌, refl, sym, ◌∙◌, ◌⊎◌, inl, inr, String, [], ◌∷◌, Option, none, some, true, false, arith, not,
  ◌&&◌, if_cases, ◌==◌, name_equality, trim_text,
}
use orynelo.Prelude.Int.{ℤ, ltb_ℤ}
use orynelo.Storage.Schema.{current_schema_version}
use orynelo.Storage.Migrate.{MigrationFault, migrate_from}
use orynelo.Storage.Open.{
  Surroundings, BackupInfo, Opening, opened, refused, present, migration_failed, needs_backup,
  quick_check, record_snapshot_version, protect, recorded, record_snapshot, after_migration,
  migrate, with_backup, upgrade, read_version, configured, connect, configure, open_context,
  is_memory_database, is_unreadable,
}
use orynelo.Storage.Atomic.{KeepsVersion, IsAtomic, migrate_from-IsAtomic}

module _ {D : Type 0} (around : Surroundings D) (path : String) where
  -- The check passed and the copy was made of the database before it was migrated.
  abbrev pub WasSaved : D → ℤ → Option BackupInfo → Type 0
  WasSaved before version backup =
      (quick_check around path before ≡ true)
      × (backup ≡ around.create_backup before version)
      × ((info : BackupInfo) × (backup ≡ some info))

  -- The database as it was connected and configured, before anything was migrated.
  abbrev pub IsBefore : D → ℤ → Type 0
  IsBefore before version =
      ((connected : D) × (around.connection ≡ some connected)
        × (configure around path connected ≡ some before))
      × (around.database.user_version before ≡ some version)

  -- A regular file that is not empty, with an older database.
  abbrev pub IsOlderFile : ℤ → Type 0
  IsOlderFile version =
      (is_memory_database path ≡ false)
      × (around.lstat ≡ present true true)
      × (ltb_ℤ version current_schema_version ≡ true)

  -- An older file was saved before; otherwise there is no copy.
  abbrev pub CameFrom : ℤ → Option BackupInfo → Type 0
  CameFrom version backup =
      (before : D) × IsBefore before version
      × ((IsOlderFile version × WasSaved before version backup)
          ⊎ ((IsOlderFile version → false ≡ true) × (backup ≡ none)))

  abbrev pub IsGuarded : Opening D → Type 0
  IsGuarded (opened d backup) =
      (around.database.user_version d ≡ some current_schema_version)
      × ((version : ℤ) × CameFrom version backup)
  IsGuarded (refused (migration_failed version backup fault) (some d)) =
      (around.database.user_version d ≡ some version) × CameFrom version backup
  IsGuarded (refused f d) = Unit

  -- What SQLite and its driver promise: versions, and that a row of the metadata changes none.
  pub record KeepsSchema : Type 0 where
    pub versions : KeepsVersion around.database
    pub rows :
        (d next : D)
        → around.database.execute d record_snapshot_version ("1" ∷ []) ≡ some next
        → around.database.user_version next ≡ around.database.user_version d

  module _ (keeps : KeepsSchema) where
    protect-IsGuarded :
        (d : D) (version : ℤ) (backup : Option BackupInfo)
        → around.database.user_version d ≡ some current_schema_version
        → CameFrom version backup
        → IsGuarded (protect around path d backup)
    protect-IsGuarded d version backup h c =
        if_cases IsGuarded (not (is_memory_database path) && not around.protected) (λ _. tt)
          (λ _. (h, (version, c)))

    record_snapshot-IsGuarded :
        (d : D) (version : ℤ) (backup : Option BackupInfo)
        → around.database.user_version d ≡ some current_schema_version
        → CameFrom version backup
        → IsGuarded (record_snapshot around path d backup)
    record_snapshot-IsGuarded d version backup h c =
        of_next (around.database.execute d record_snapshot_version ("1" ∷ [])) refl
      where
        of_next :
            (o : Option D)
            → around.database.execute d record_snapshot_version ("1" ∷ []) ≡ o
            → IsGuarded (recorded around path d backup o)
        of_next none e = tt
        of_next (some next) e = protect-IsGuarded next version backup (keeps.rows d next e ∙ h) c

    after_migration-IsGuarded :
        (before : D) (version : ℤ) (backup : Option BackupInfo) (result : Option MigrationFault × D)
        → around.database.user_version before ≡ some version
        → CameFrom version backup
        → IsAtomic around.database keeps.versions before result
        → IsGuarded (after_migration around path version backup result)
    after_migration-IsGuarded before version backup (none, d) h c (inl (e, v)) =
        record_snapshot-IsGuarded d version backup v c
    after_migration-IsGuarded before version backup (none, d) h c (inr (f, e, same)) = cc
    after_migration-IsGuarded before version backup (some fault, d) h c (inl (e, v)) = cc
    after_migration-IsGuarded before version backup (some fault, d) h c (inr (f, e, same)) =
        (rw (same) h, c)

    migrate-IsGuarded :
        (before : D) (version : ℤ) (backup : Option BackupInfo)
        → around.database.user_version before ≡ some version
        → CameFrom version backup
        → IsGuarded (migrate around path before version backup)
    migrate-IsGuarded before version backup h c =
        if_cases IsGuarded (ltb_ℤ current_schema_version version) (λ _. tt)
          (λ _.
            after_migration-IsGuarded before version backup
              (migrate_from around.database before version) h c
              (migrate_from-IsAtomic around.database keeps.versions before version h))

    with_backup-IsGuarded :
        (before : D) (version : ℤ) (o : Option BackupInfo)
        → IsBefore before version
        → IsOlderFile version
        → quick_check around path before ≡ true
        → o ≡ around.create_backup before version
        → IsGuarded (with_backup around path before version o)
    with_backup-IsGuarded before version none h older q e = tt
    with_backup-IsGuarded before version (some info) h older q e =
        migrate-IsGuarded before version (some info) h.1
          (before, h, inl (older, (q, e, (info, refl))))

    needs_backup-IsOlderFile :
        (version : ℤ)
        → ((needs_backup around path version ≡ true) → IsOlderFile version)
          × (IsOlderFile version → (needs_backup around path version ≡ true))
    needs_backup-IsOlderFile version = (λ h. ground arith, λ h. ground arith)

    upgrade-IsGuarded :
        (before : D) (version : ℤ)
        → IsBefore before version
        → IsGuarded (upgrade around path before version)
    upgrade-IsGuarded before version h =
        if_cases IsGuarded (needs_backup around path version)
          (λ y.
            if_cases IsGuarded (quick_check around path before)
              (λ q.
                with_backup-IsGuarded before version (around.create_backup before version) h
                  ((needs_backup-IsOlderFile version).0 y) q refl)
              (λ _. tt))
          (λ n.
            migrate-IsGuarded before version none h.1
              (before, h, inr ((λ o. sym n ∙ (needs_backup-IsOlderFile version).1 o), refl)))

    connect-IsGuarded : (o : Option D) → around.connection ≡ o → IsGuarded (connect around path o)
    connect-IsGuarded none c = tt
    connect-IsGuarded (some d) c = of_configured (configure around path d) refl
      where
        of_version :
            (set : D)
            → configure around path d ≡ some set
            → (o : Option ℤ) → around.database.user_version set ≡ o
            → IsGuarded (read_version around path set o)
        of_version set m none e = tt
        of_version set m (some version) e = upgrade-IsGuarded set version ((d, c, m), e)

        of_configured :
            (o : Option D) → configure around path d ≡ o → IsGuarded (configured around path d o)
        of_configured none m = tt
        of_configured (some set) m = of_version set m (around.database.user_version set) refl

    -- A store that is opened is at the current version of the schema, and a failed migration leaves
    -- the version that the database had. In both cases, if the path had a regular file that was not
    -- empty with an older version, the database as it was connected and configured had passed the
    -- quick check, and the copy that is reported was made of it; otherwise no copy is reported. This
    -- is if the version pragma does what SQLite documents and a row of the metadata changes no
    -- version.
    pub open_context-IsGuarded : IsGuarded (open_context around path)
    unfolding open_context
    open_context-IsGuarded =
        if_cases IsGuarded (trim_text path == "") (λ _. tt)
          (λ _.
            if_cases IsGuarded (not (is_memory_database path) && is_unreadable around.lstat)
              (λ _. tt)
              (λ _.
                if_cases IsGuarded (not (is_memory_database path) && not around.prepared) (λ _. tt)
                  (λ _. connect-IsGuarded around.connection refl)))
