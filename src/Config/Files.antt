-- ===== src/Config/Files.antt =====
-- `Load` and `Save`. YAML and the file system are outside: the record Yaml is what its library makes of
-- settings and of bytes, and Luck says which calls of the file system succeed. Of the disk there is
-- the file at the path and the temporary file beside it.
use orynelo.Prelude.{
  ℕ, Text, Option, none, some, Bool, true, false, not, ◌&&◌, ◌||◌, if◌then◌else◌, ltb, length,
}
use orynelo.Config.Settings.{Config, default_config, validate, is_valid_config}

abbrev pub max_config_bytes : ℕ
max_config_bytes = 1048576

-- What stands at a path; a file that is not regular is a directory, a device or the like.
pub data FileState : Type 0 where
  missing unreadable irregular : FileState
  regular : Text → FileState

-- What the decoder finds after the first document.
pub data Rest : Type 0 where
  end_of_file another_document malformed : Rest

pub record Yaml : Type 0 where
  pub marshal : Config → Option Text
  pub decode : Config → Text → Option Config
  pub after_first : Text → Rest

pub data LoadFault : Type 0 where
  open_failed not_regular too_large decode_failed multiple_documents trailing_text invalid_config :
      LoadFault

pub data Loaded : Type 0 where
  loaded : Config → Loaded
  not_loaded : LoadFault → Loaded

-- `IsInvalid`: content that the user can correct.
unfoldable pub is_invalid : LoadFault → Bool
is_invalid open_failed = false
is_invalid _ = true

module _ (yaml : Yaml) where
  abbrev pub checked : Config → Loaded
  checked c = if is_valid_config c then loaded c else not_loaded invalid_config

  abbrev pub only_document : Config → Rest → Loaded
  only_document c end_of_file = checked c
  only_document c another_document = not_loaded multiple_documents
  only_document c malformed = not_loaded trailing_text

  abbrev pub decoded : Text → Option Config → Loaded
  decoded content none = not_loaded decode_failed
  decoded content (some c) = only_document c (yaml.after_first content)

  unfoldable pub load : FileState → Loaded
  unfolding default_config validate
  load missing = loaded default_config
  load unreadable = not_loaded open_failed
  load irregular = not_loaded not_regular
  load (regular content) =
      if ltb max_config_bytes (length content)
      then not_loaded too_large
      else decoded content (yaml.decode default_config content)

pub record Luck : Type 0 where
  pub windows : Bool
  pub ensures_dir : Bool
  pub creates_temp : Bool
  pub protects : Bool
  pub writes : Bool
  pub syncs : Bool
  pub closes : Bool
  pub renames : Bool
  pub removes : Bool
  pub renames_again : Bool
  pub syncs_dir : Bool

pub record Disk : Type 0 where
  pub target : FileState
  pub temp : Option Text

pub data SaveFault : Type 0 where
  invalid_settings encode_failed encoded_too_large directory_failed temp_failed write_failed
        replace_failed :
      SaveFault
  dir_sync_failed : SaveFault

abbrev is_missing : FileState → Bool
is_missing missing = true
is_missing _ = false

abbrev pub has_no_chance : Luck → FileState → Bool
has_no_chance luck target = not luck.windows || is_missing target || not luck.removes

-- `replace`: the file at the path afterwards, and whether it is the new one. Windows is given a second
-- chance without the file that is in the way.
unfoldable pub replace : Luck → FileState → Text → Bool × FileState
replace luck target content =
    if luck.renames
    then (true, regular content)
    else if has_no_chance luck target
    then (false, target)
    else if luck.renames_again
    then (true, regular content)
    else (false, missing)

abbrev pub replaced : Luck → Bool × FileState → Option SaveFault × Disk
replaced luck (false, target) = (some replace_failed, record { target = target; temp = none })
replaced luck (true, target) =
    if luck.windows || luck.syncs_dir
    then (none, record { target = target; temp = none })
    else (some dir_sync_failed, record { target = target; temp = none })

-- A temporary file that is given up is removed.
abbrev pub write_out : Luck → Disk → Text → Option SaveFault × Disk
write_out luck disk content =
    if not luck.ensures_dir
    then (some directory_failed, disk)
    else if not luck.creates_temp
    then (some temp_failed, disk)
    else if not (luck.protects && luck.writes && luck.syncs && luck.closes)
    then (some write_failed, record disk { temp = none })
    else replaced luck (replace luck disk.target content)

abbrev pub encoded : Luck → Disk → Option Text → Option SaveFault × Disk
encoded luck disk none = (some encode_failed, disk)
encoded luck disk (some content) =
    if ltb max_config_bytes (length content)
    then (some encoded_too_large, disk)
    else write_out luck disk content

-- `Save`
unfoldable pub save : Yaml → Luck → Disk → Config → Option SaveFault × Disk
unfolding validate replace
save yaml luck disk c =
    if is_valid_config c then encoded luck disk (yaml.marshal c) else (some invalid_settings, disk)
