-- ===== src/Config/Accepted.antt =====
-- The ranges of the settings, beside `Config.Validate`.
use Prim.Native.String.{len}
use orynelo.Prelude.{
  ◌≤◌, ◌≡◌, refl, ◌↔◌, String, List, [], ◌∷◌, Bool, true, false, ◌==◌, name_equality, str_iff,
  arith, any, All,
}
use orynelo.Prelude.Int.{ℤ, pos, ◌≤ℤ◌}
use orynelo.Config.Settings.{
  Config, default_config, validate, is_valid_config, contains_control, valid_language_preference,
  findings, problems, no_problems, day,
}

-- One of the texts that a setting may have.
abbrev OneOf : List String → String → Type 0
OneOf names s = any (λ name. s == name) names ≡ true

abbrev Between : ℤ → ℤ → ℤ → Type 0
Between low high n = (low ≤ℤ n) × (n ≤ℤ high)

pub record IsInRange (c : Config) : Type 0 where
  pub version : c.schema_version ≡ "1"
  pub timeout : Between (pos 1) (pos day) c.diagnostics.default_timeout
  pub check_timeout : Between (pos 1) c.diagnostics.default_timeout c.diagnostics.check_timeout
  pub redirects : Between (pos 0) (pos 50) c.diagnostics.max_redirects
  pub ip_version : OneOf ("auto" ∷ "4" ∷ "6" ∷ []) c.diagnostics.preferred_ip_version
  pub threshold :
      Between (pos 0) (pos 31536000000000000) c.diagnostics.certificate_warning_threshold
  pub user_agent :
      (len c.network.user_agent ≤ 256) × (contains_control c.network.user_agent ≡ false)
  pub history : Between (pos 1) (pos 10000) c.history.max_entries
  pub theme : OneOf ("system" ∷ "light" ∷ "dark" ∷ []) c.appearance.theme
  pub language : OneOf ("system" ∷ "ru" ∷ "en" ∷ []) c.appearance.language
  pub report_language : OneOf ("system" ∷ "ru" ∷ "en" ∷ []) c.appearance.report_language
  pub level : OneOf ("debug" ∷ "info" ∷ "warn" ∷ "error" ∷ []) c.logging.level

problems-none :
    (ts : List (Bool × String)) → no_problems (problems ts) ≡ true → All (λ t. t.0 ≡ false) ts
problems-none [] h = tt
problems-none ((true, text) ∷ ts) h = cc
problems-none ((false, text) ∷ ts) h = (refl, problems-none ts h)

none-problems :
    (ts : List (Bool × String)) → All (λ t. t.0 ≡ false) ts → no_problems (problems ts) ≡ true
none-problems [] h = refl
none-problems ((true, text) ∷ ts) h = absurd (no_true h.0)
  where
    no_true : true ≡ false → ⊥
    no_true e = cc
none-problems ((false, text) ∷ ts) h = none-problems ts h.1

findings-IsInRange : (c : Config) → All (λ t. t.0 ≡ false) (findings c) → IsInRange c
unfolding findings valid_language_preference
findings-IsInRange c h =
    let v = h.0 in
    let t = h.1.0 in
    let k = h.1.1.0 in
    let r = h.1.1.1.0 in
    let i = h.1.1.1.1.0 in
    let w = h.1.1.1.1.1.0 in
    let u = h.1.1.1.1.1.1.0 in
    let n = h.1.1.1.1.1.1.1.0 in
    let m = h.1.1.1.1.1.1.1.1.0 in
    let l = h.1.1.1.1.1.1.1.1.1.0 in
    let p = h.1.1.1.1.1.1.1.1.1.1.0 in
    let g = h.1.1.1.1.1.1.1.1.1.1.1.0 in
    record {
      version = ground (arith, str_iff c.schema_version "1");
      timeout = ground arith;
      check_timeout = ground arith;
      redirects = ground arith;
      ip_version = ground arith;
      threshold = ground arith;
      user_agent = ground arith;
      history = ground arith;
      theme = ground arith;
      language = ground arith;
      report_language = ground arith;
      level = ground arith;
    }

IsInRange-findings : (c : Config) → IsInRange c → All (λ t. t.0 ≡ false) (findings c)
unfolding findings valid_language_preference
IsInRange-findings c h =
    let v = h.version in
    let t = h.timeout in
    let k = h.check_timeout in
    let r = h.redirects in
    let i = h.ip_version in
    let w = h.threshold in
    let u = h.user_agent in
    let n = h.history in
    let m = h.theme in
    let l = h.language in
    let p = h.report_language in
    let g = h.level in
    (
      ground (arith, str_iff c.schema_version "1"),
      (
        ground arith,
        (
          ground arith,
          (
            ground arith,
            (
              ground arith,
              (
                ground arith,
                (
                  ground arith,
                  (
                    ground arith,
                    (ground arith, (ground arith, (ground arith, (ground arith, tt)))),
                  ),
                ),
              ),
            ),
          ),
        ),
      ),
    )

-- Settings are accepted exactly if each is in its range: the durations and numbers between their
-- bounds, the check's timeout within the default one, the texts among those allowed, and the user
-- agent short and without control characters.
pub is_valid_config_iff : (c : Config) → (is_valid_config c ≡ true) ↔ IsInRange c
unfolding validate
is_valid_config_iff c = (
  (λ h. findings-IsInRange c (problems-none (findings c) h)),
  (λ h. none-problems (findings c) (IsInRange-findings c h)),
)

pub default_config-is_valid : is_valid_config default_config ≡ true
unfolding validate default_config
default_config-is_valid = refl
