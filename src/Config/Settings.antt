-- ===== src/Config/Settings.antt =====
-- The settings with their defaults, and `Config.Validate`. A duration is a signed number of
-- nanoseconds.
use Prim.Native.Char.{code}
use Prim.Native.String.{len}
use orynelo.Prelude.{
  ℕ, String, List, [], ◌∷◌, Bool, true, false, not, ◌||◌, ◌==◌, name_equality, if◌then◌else◌, ltb,
  eqb,
}
use orynelo.Prelude.Int.{ℤ, pos, ltb_ℤ}

pub record DiagnosticsConfig : Type 0 where
  pub default_timeout : ℤ
  pub check_timeout : ℤ
  pub max_redirects : ℤ
  pub preferred_ip_version : String
  pub certificate_warning_threshold : ℤ

pub record NetworkConfig : Type 0 where
  pub use_system_proxy : Bool
  pub user_agent : String

pub record HistoryConfig : Type 0 where
  pub enabled : Bool
  pub max_entries : ℤ

pub record AppearanceConfig : Type 0 where
  pub theme : String
  pub language : String
  pub report_language : String

pub record LoggingConfig : Type 0 where
  pub level : String

pub record Config : Type 0 where
  pub schema_version : String
  pub diagnostics : DiagnosticsConfig
  pub network : NetworkConfig
  pub history : HistoryConfig
  pub appearance : AppearanceConfig
  pub logging : LoggingConfig

abbrev pub day : ℕ
day = 86400000000000

unfoldable pub default_config : Config
default_config = record {
  schema_version = "1";
  diagnostics = record {
    default_timeout = pos 15000000000;
    check_timeout = pos 5000000000;
    max_redirects = pos 10;
    preferred_ip_version = "auto";
    certificate_warning_threshold = pos (2592000000000000);
  };
  network = record { use_system_proxy = true; user_agent = "Orynelo" };
  history = record { enabled = true; max_entries = pos 200 };
  appearance = record { theme = "system"; language = "system"; report_language = "system" };
  logging = record { level = "info" };
}

abbrev pub is_control : ℕ → Bool
is_control c = ltb c 32 || eqb c 127

unfoldable pub contains_control : String → Bool
contains_control String.[] = false
contains_control (String.◌∷◌ c s) = is_control (code c) || contains_control s

unfoldable pub valid_language_preference : String → Bool
valid_language_preference value = value == "system" || value == "ru" || value == "en"

abbrev pub outside : ℤ → ℤ → ℤ → Bool
outside low high value = ltb_ℤ value low || ltb_ℤ high value

-- The conditions that make a problem, each with its text.
unfoldable pub findings : Config → List (Bool × String)
unfolding contains_control valid_language_preference
findings c =
    let d = c.diagnostics in
    (not (c.schema_version == "1"), "schemaVersion must be \"1\"")
    ∷ (
      outside (pos 1) (pos day) d.default_timeout,
      "diagnostics.defaultTimeout must be greater than zero and at most 24h",
    )
    ∷ (
      outside (pos 1) d.default_timeout d.check_timeout,
      "diagnostics.checkTimeout must be greater than zero and no longer than defaultTimeout",
    )
    ∷ (
      outside (pos 0) (pos 50) d.max_redirects,
      "diagnostics.maxRedirects must be between 0 and 50",
    )
    ∷ (
      not (
          d.preferred_ip_version == "auto"
          || d.preferred_ip_version == "4"
          || d.preferred_ip_version == "6"),
      "diagnostics.preferredIPVersion must be \"auto\", \"4\", or \"6\"",
    )
    ∷ (
      outside (pos 0) (pos (31536000000000000)) d.certificate_warning_threshold,
      "diagnostics.certificateWarningThreshold must be between 0 and 8760h",
    )
    ∷ (
      ltb 256 (len c.network.user_agent) || contains_control c.network.user_agent,
      "network.userAgent must be at most 256 characters and contain no control characters",
    )
    ∷ (
      outside (pos 1) (pos 10000) c.history.max_entries,
      "history.maxEntries must be between 1 and 10000",
    )
    ∷ (
      not (
          c.appearance.theme == "system"
          || c.appearance.theme == "light"
          || c.appearance.theme == "dark"),
      "appearance.theme must be \"system\", \"light\", or \"dark\"",
    )
    ∷ (
      not (valid_language_preference c.appearance.language),
      "appearance.language must be \"system\", \"ru\", or \"en\"",
    )
    ∷ (
      not (valid_language_preference c.appearance.report_language),
      "appearance.reportLanguage must be \"system\", \"ru\", or \"en\"",
    )
    ∷ (
      not (
          c.logging.level == "debug"
          || c.logging.level == "info"
          || c.logging.level == "warn"
          || c.logging.level == "error"),
      "logging.level must be \"debug\", \"info\", \"warn\", or \"error\"",
    )
    ∷ []

abbrev pub problems : List (Bool × String) → List String
problems [] = []
problems ((bad, text) ∷ rest) = if bad then text ∷ problems rest else problems rest

-- `Config.Validate`, as the list of its problems.
unfoldable pub validate : Config → List String
unfolding findings
validate c = problems (findings c)

abbrev pub no_problems : List String → Bool
no_problems [] = true
no_problems (problem ∷ more) = false

abbrev pub is_valid_config : Config → Bool
is_valid_config c = no_problems (validate c)
