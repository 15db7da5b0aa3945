-- ===== src/Storage/Schema.antt =====
-- The schema of the database and its changes (internal/storage/migrations.go).
use orynelo.Prelude.{String, List, [], ◌∷◌}
use orynelo.Prelude.Int.{ℤ, pos}

pub record Migration : Type 0 where
  pub version : ℤ
  pub statements : List String

abbrev pub current_schema_version : ℤ
current_schema_version = pos 3

abbrev statements_1 : List String
statements_1 =
    "CREATE TABLE metadata (\n\t\t\t\tkey TEXT PRIMARY KEY NOT NULL,\n\t\t\t\tvalue TEXT NOT NULL\n\t\t\t)"
    ∷ "CREATE TABLE diagnoses (\n\t\t\t\tid TEXT PRIMARY KEY NOT NULL,\n\t\t\t\ttarget_original TEXT NOT NULL,\n\t\t\t\ttarget_normalized TEXT NOT NULL,\n\t\t\t\ttarget_host TEXT NOT NULL,\n\t\t\t\ttarget_port INTEGER NOT NULL,\n\t\t\t\ttarget_scheme TEXT NOT NULL,\n\t\t\t\tstatus TEXT NOT NULL,\n\t\t\t\tsummary_title TEXT NOT NULL,\n\t\t\t\tsummary_description TEXT NOT NULL,\n\t\t\t\tstarted_at TEXT NOT NULL,\n\t\t\t\tfinished_at TEXT NOT NULL,\n\t\t\t\tduration_ns INTEGER NOT NULL,\n\t\t\t\tversion TEXT NOT NULL,\n\t\t\t\tcommit_hash TEXT NOT NULL,\n\t\t\t\tsnapshot_schema_version TEXT NOT NULL,\n\t\t\t\tsnapshot_json TEXT NOT NULL,\n\t\t\t\tcreated_at TEXT NOT NULL\n\t\t\t)"
    ∷ "CREATE TABLE check_results (\n\t\t\t\tdiagnosis_id TEXT NOT NULL,\n\t\t\t\tposition INTEGER NOT NULL,\n\t\t\t\tcheck_id TEXT NOT NULL,\n\t\t\t\tname TEXT NOT NULL,\n\t\t\t\tstatus TEXT NOT NULL,\n\t\t\t\tstarted_at TEXT NOT NULL,\n\t\t\t\tfinished_at TEXT NOT NULL,\n\t\t\t\tduration_ns INTEGER NOT NULL,\n\t\t\t\tsummary TEXT NOT NULL,\n\t\t\t\terror_code TEXT NOT NULL,\n\t\t\t\tPRIMARY KEY (diagnosis_id, position),\n\t\t\t\tFOREIGN KEY (diagnosis_id) REFERENCES diagnoses(id) ON DELETE CASCADE\n\t\t\t)"
    ∷ "CREATE TABLE evidence (\n\t\t\t\trow_id INTEGER PRIMARY KEY AUTOINCREMENT,\n\t\t\t\tdiagnosis_id TEXT NOT NULL,\n\t\t\t\tcheck_position INTEGER NOT NULL,\n\t\t\t\tposition INTEGER NOT NULL,\n\t\t\t\tevidence_id TEXT NOT NULL,\n\t\t\t\tcheck_id TEXT NOT NULL,\n\t\t\t\tcode TEXT NOT NULL,\n\t\t\t\tmessage TEXT NOT NULL,\n\t\t\t\tdetails_json TEXT NOT NULL,\n\t\t\t\tFOREIGN KEY (diagnosis_id, check_position)\n\t\t\t\t\tREFERENCES check_results(diagnosis_id, position) ON DELETE CASCADE\n\t\t\t)"
    ∷ "CREATE TABLE recommendations (\n\t\t\t\trow_id INTEGER PRIMARY KEY AUTOINCREMENT,\n\t\t\t\tdiagnosis_id TEXT NOT NULL,\n\t\t\t\tscope TEXT NOT NULL,\n\t\t\t\tcheck_position INTEGER,\n\t\t\t\tposition INTEGER NOT NULL,\n\t\t\t\trecommendation_id TEXT NOT NULL,\n\t\t\t\tcheck_id TEXT NOT NULL,\n\t\t\t\tpriority TEXT NOT NULL,\n\t\t\t\tmessage TEXT NOT NULL,\n\t\t\t\tFOREIGN KEY (diagnosis_id) REFERENCES diagnoses(id) ON DELETE CASCADE,\n\t\t\t\tFOREIGN KEY (diagnosis_id, check_position)\n\t\t\t\t\tREFERENCES check_results(diagnosis_id, position) ON DELETE CASCADE\n\t\t\t)"
    ∷ "CREATE INDEX diagnoses_started_at_idx ON diagnoses(started_at DESC, id DESC)"
    ∷ "CREATE INDEX diagnoses_status_started_at_idx ON diagnoses(status, started_at DESC)"
    ∷ "CREATE INDEX diagnoses_target_idx ON diagnoses(target_normalized COLLATE NOCASE)"
    ∷ "CREATE INDEX evidence_diagnosis_idx ON evidence(diagnosis_id, check_position, position)"
    ∷ "CREATE INDEX recommendations_diagnosis_idx\n\t\t\t\tON recommendations(diagnosis_id, scope, check_position, position)"
    ∷ []

abbrev statements_2 : List String
statements_2 =
    "CREATE TABLE profiles (\n\t\t\t\tid INTEGER PRIMARY KEY AUTOINCREMENT,\n\t\t\t\tname TEXT NOT NULL,\n\t\t\t\ttarget TEXT NOT NULL,\n\t\t\t\tip_version TEXT NOT NULL,\n\t\t\t\ttimeout_ns INTEGER NOT NULL,\n\t\t\t\tcheck_timeout_ns INTEGER NOT NULL,\n\t\t\t\tno_proxy INTEGER NOT NULL,\n\t\t\t\tinsecure INTEGER NOT NULL,\n\t\t\t\tenable_tls INTEGER NOT NULL,\n\t\t\t\tmax_redirects INTEGER NOT NULL,\n\t\t\t\tmethod TEXT NOT NULL,\n\t\t\t\tcreated_at TEXT NOT NULL,\n\t\t\t\tupdated_at TEXT NOT NULL\n\t\t\t)"
    ∷ "CREATE INDEX profiles_name_idx ON profiles(name COLLATE NOCASE, id)" ∷ []

abbrev statements_3 : List String
statements_3 =
    "ALTER TABLE profiles\n\t\t\t ADD COLUMN mode TEXT NOT NULL DEFAULT 'auto'\n\t\t\t CHECK (mode IN ('auto', 'tcp', 'tls'))"
    ∷ "UPDATE profiles SET mode = 'tls' WHERE enable_tls = 1" ∷ []

abbrev pub migrations : List Migration
migrations =
    (record { version = pos 1; statements = statements_1 })
    ∷ (record { version = pos 2; statements = statements_2 })
    ∷ (record { version = pos 3; statements = statements_3 })
    ∷ []
