-- ===== src/Config/Examples.antt =====
-- A library that can write the default settings only, as one byte, and reads them back.
use orynelo.Prelude.{
  ◌≡◌, refl, sym, ap, ◌↔◌, Text, List, [], ◌∷◌, none, some, Bool, true, false, if◌then◌else◌, eqb,
  ◌&&◌, ◌==◌, name_equality, str_iff, arith, All,
}
use orynelo.Prelude.Int.{ℤ, pos, pos_part, neg_part, eq_of_parts}
use orynelo.Config.{
  replace, Config, default_config, validate, is_valid_config, Yaml, end_of_file, Luck, Disk,
  missing, regular, save, load, loaded, replace_failed,
}
use orynelo.Config.Accepted.{IsInRange, is_valid_config_iff}
use orynelo.Config.Saved.{ReadsBack, IsSaved, save-IsSaved, load-save}

abbrev luck : Luck
luck = record {
  windows = false;
  ensures_dir = true;
  creates_temp = true;
  protects = true;
  writes = true;
  syncs = true;
  closes = true;
  renames = true;
  removes = true;
  renames_again = true;
  syncs_dir = true;
}

abbrev disk : Disk
disk = record { target = regular (1 ∷ []); temp = none }

is_valid_config_iff_example : (is_valid_config default_config ≡ true) ↔ IsInRange default_config
is_valid_config_iff_example = is_valid_config_iff default_config

abbrev same_ℤ : ℤ → ℤ → Bool
same_ℤ a b = eqb (pos_part a) (pos_part b) && eqb (neg_part a) (neg_part b)

same_ℤ-eq : (a b : ℤ) → same_ℤ a b ≡ true → a ≡ b
same_ℤ-eq a b h = eq_of_parts a b (ground arith)

-- The settings field by field.
abbrev fields : Config → List Bool
fields c =
    (c.schema_version == "1")
    ∷ (same_ℤ c.diagnostics.default_timeout (pos 15000000000))
    ∷ (same_ℤ c.diagnostics.check_timeout (pos 5000000000))
    ∷ (same_ℤ c.diagnostics.max_redirects (pos 10))
    ∷ (c.diagnostics.preferred_ip_version == "auto")
    ∷ (same_ℤ c.diagnostics.certificate_warning_threshold (pos 2592000000000000))
    ∷ (c.network.use_system_proxy)
    ∷ (c.network.user_agent == "Orynelo")
    ∷ (c.history.enabled)
    ∷ (same_ℤ c.history.max_entries (pos 200))
    ∷ (c.appearance.theme == "system")
    ∷ (c.appearance.language == "system")
    ∷ (c.appearance.report_language == "system")
    ∷ (c.logging.level == "info")
    ∷ []

abbrev and_all : List Bool → Bool
and_all [] = true
and_all (b ∷ bs) = if b then and_all bs else false

and_all-All : (bs : List Bool) → and_all bs ≡ true → All (λ b. b ≡ true) bs
and_all-All [] h = tt
and_all-All (true ∷ bs) h = (refl, and_all-All bs h)
and_all-All (false ∷ bs) h = cc

is_default : (c : Config) → All (λ b. b ≡ true) (fields c) → c ≡ default_config
unfolding default_config
is_default c h =
    let e0 = (str_iff c.schema_version "1").0 h.0 in
    let e1 = same_ℤ-eq c.diagnostics.default_timeout (pos 15000000000) h.1.0 in
    let e2 = same_ℤ-eq c.diagnostics.check_timeout (pos 5000000000) h.1.1.0 in
    let e3 = same_ℤ-eq c.diagnostics.max_redirects (pos 10) h.1.1.1.0 in
    let e4 = (str_iff c.diagnostics.preferred_ip_version "auto").0 h.1.1.1.1.0 in
    let e5 =
      same_ℤ-eq c.diagnostics.certificate_warning_threshold (pos 2592000000000000) h.1.1.1.1.1.0 in
    let e6 = h.1.1.1.1.1.1.0 in
    let e7 = (str_iff c.network.user_agent "Orynelo").0 h.1.1.1.1.1.1.1.0 in
    let e8 = h.1.1.1.1.1.1.1.1.0 in
    let e9 = same_ℤ-eq c.history.max_entries (pos 200) h.1.1.1.1.1.1.1.1.1.0 in
    let e10 = (str_iff c.appearance.theme "system").0 h.1.1.1.1.1.1.1.1.1.1.0 in
    let e11 = (str_iff c.appearance.language "system").0 h.1.1.1.1.1.1.1.1.1.1.1.0 in
    let e12 = (str_iff c.appearance.report_language "system").0 h.1.1.1.1.1.1.1.1.1.1.1.1.0 in
    let e13 = (str_iff c.logging.level "info").0 h.1.1.1.1.1.1.1.1.1.1.1.1.1.0 in
    rw (e0, e1, e2, e3, e4, e5, e6, e7, e8, e9, e10, e11, e12, e13) refl

abbrev yaml : Yaml
yaml = record {
  marshal = λ c. if and_all (fields c) then some (100 ∷ []) else none;
  decode = λ c content. some default_config;
  after_first = λ content. end_of_file;
}

-- What the library wrote is the default settings.
marshalled :
    (c : Config) (b : Bool) (content : Text)
    → and_all (fields c) ≡ b
    → (if b then some (100 ∷ []) else none) ≡ some content
    → c ≡ default_config
marshalled c true content h m = is_default c (and_all-All (fields c) h)
marshalled c false content h m = cc

reads : ReadsBack yaml
reads = record {
  same = λ c content m. ap some (sym (marshalled c (and_all (fields c)) content refl m));
  alone = λ c content m. refl;
}

save-IsSaved_example : IsSaved yaml luck disk default_config (save yaml luck disk default_config)
save-IsSaved_example = save-IsSaved yaml luck disk default_config

load-save_example : load yaml (save yaml luck disk default_config).1.target ≡ loaded default_config
unfolding save validate default_config
load-save_example = load-save yaml luck disk default_config reads refl

-- Windows, where the file is removed to make way and the new one cannot take its place.
unlucky_test :
    (save yaml
      (record luck { windows = true; renames = false; renames_again = false })
      disk
      default_config)
    ≡ (some replace_failed, record { target = missing; temp = none })
unfolding save validate default_config replace
unlucky_test = refl
