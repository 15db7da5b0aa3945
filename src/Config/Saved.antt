-- ===== src/Config/Saved.antt =====
-- What `Save` leaves at the path, and what `Load` makes of it.
use orynelo.Prelude.{
  ◌≡◌, refl, ◌⊎◌, inl, inr, Text, Option, none, some, Bool, true, false, not, ◌&&◌, ◌||◌, arith,
  if_cases, ltb, length,
}
use orynelo.Config.Settings.{Config, default_config, is_valid_config}
use orynelo.Config.Files.{
  FileState, missing, regular, Yaml, end_of_file, loaded, load, max_config_bytes, Luck, Disk,
  SaveFault, save, encoded, write_out, replaced, replace, has_no_chance, dir_sync_failed,
}

-- What the YAML library promises: a document that it wrote for settings is read back as them, and is
-- the only one of its text.
pub record ReadsBack (yaml : Yaml) : Type 0 where
  pub same :
      (c : Config) (content : Text)
      → yaml.marshal c ≡ some content
      → yaml.decode default_config content ≡ some c
  pub alone :
      (c : Config) (content : Text)
      → yaml.marshal c ≡ some content
      → yaml.after_first content ≡ end_of_file

module _ (yaml : Yaml) (luck : Luck) (disk : Disk) (c : Config) where
  -- The new file holds what the library wrote for settings that are valid and not too long.
  abbrev pub IsNewFile : FileState → Type 0
  IsNewFile target =
      (content : Text) × (target ≡ regular content)
      × (yaml.marshal c ≡ some content)
      × (is_valid_config c ≡ true)
      × (ltb max_config_bytes (length content) ≡ false)

  -- Without a fault there is the new file. With a fault the file is as it was, or it is the new one,
  -- whose directory could not be synced, or it is missing after Windows had to remove it.
  abbrev pub IsSaved : Option SaveFault × Disk → Type 0
  IsSaved (none, after) = IsNewFile after.target
  IsSaved (some f, after) =
      (after.target ≡ disk.target)
      ⊎ ((f ≡ dir_sync_failed) × IsNewFile after.target)
      ⊎ ((luck.windows ≡ true) × (after.target ≡ missing))

  -- What a replacement leaves at the path.
  abbrev Replaces : Text → Bool × FileState → Type 0
  Replaces content (true, target) = target ≡ regular content
  Replaces content (false, target) =
      (target ≡ disk.target) ⊎ ((luck.windows ≡ true) × (target ≡ missing))

  replace-Replaces : (content : Text) → Replaces content (replace luck disk.target content)
  unfolding replace
  replace-Replaces content =
      if_cases (Replaces content) luck.renames (λ _. refl)
        (λ _.
          if_cases (Replaces content) (has_no_chance luck disk.target) (λ _. inl refl)
            (λ second.
              if_cases (Replaces content) luck.renames_again (λ _. refl)
                (λ _. inr (ground arith, refl))))

  replaced-IsSaved :
      (content : Text) (result : Bool × FileState)
      → IsNewFile (regular content)
      → Replaces content result
      → IsSaved (replaced luck result)
  replaced-IsSaved content (true, target) new r =
      if_cases IsSaved (luck.windows || luck.syncs_dir) (λ _. rw (r) new)
        (λ _. inr (inl (refl, rw (r) new)))
  replaced-IsSaved content (false, target) new (inl same) = inl same
  replaced-IsSaved content (false, target) new (inr gone) = inr (inr gone)

  write_out-IsSaved :
      (content : Text) → IsNewFile (regular content) → IsSaved (write_out luck disk content)
  write_out-IsSaved content new =
      if_cases IsSaved (not luck.ensures_dir) (λ _. inl refl)
        (λ _.
          if_cases IsSaved (not luck.creates_temp) (λ _. inl refl)
            (λ _.
              if_cases IsSaved (not (luck.protects && luck.writes && luck.syncs && luck.closes))
                (λ _. inl refl)
                (λ _.
                  replaced-IsSaved content (replace luck disk.target content) new
                    (replace-Replaces content))))

  -- However the calls of the file system turn out: a save without a fault leaves the new file. One
  -- with a fault leaves the file as it was, or the new file if only its directory could not be
  -- synced, or on Windows none at all.
  pub save-IsSaved : IsSaved (save yaml luck disk c)
  unfolding save
  save-IsSaved =
      if_cases IsSaved (is_valid_config c) (λ v. of_content v (yaml.marshal c) refl) (λ _. inl refl)
    where
      of_content :
          is_valid_config c ≡ true
          → (o : Option Text) → yaml.marshal c ≡ o
          → IsSaved (encoded luck disk o)
      of_content v none e = inl refl
      of_content v (some content) e =
          if_cases IsSaved (ltb max_config_bytes (length content)) (λ _. inl refl)
            (λ short. write_out-IsSaved content (content, refl, e, v, short))

  -- The new file is loaded as the settings that were saved.
  load-new : ReadsBack yaml → (target : FileState) → IsNewFile target → load yaml target ≡ loaded c
  unfolding load
  load-new reads target (content, e, m, v, short) =
      rw (e, short, reads.same c content m, reads.alone c content m, v)

  -- A save without a fault is read back by the load: the settings are the same; if the YAML library
  -- reads what it wrote for settings back as them, and as one document.
  pub load-save :
      ReadsBack yaml
      → (save yaml luck disk c).0 ≡ none
      → load yaml (save yaml luck disk c).1.target ≡ loaded c
  load-save reads = of_result (save yaml luck disk c) save-IsSaved
    where
      of_result :
          (result : Option SaveFault × Disk)
          → IsSaved result
          → result.0 ≡ none
          → load yaml result.1.target ≡ loaded c
      of_result (none, after) new h = load-new reads after.target new
      of_result (some f, after) r h = cc
