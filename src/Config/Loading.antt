-- ===== src/Config/Loading.antt =====
-- `LoadConfigFromPath` and `LoadConfig`.
use system_monitor_go.Base.{
  Bool, true, false, not, ◌&&◌, [], Option, none, some, Text, Result, ok, err, lookup, text_eq,
  if◌then◌else◌,
}
use system_monitor_go.Config.Settings.{Config, default_config, zero_config}
use system_monitor_go.Config.Storage.{
  Machine, Files, KeyError, SaveError, config_file, generate_system_key, print_and_write,
  save_config_to_path, save_config,
}

pub data LoadError : Type 0 where
  no_current_dir : LoadError
  key_failed : KeyError → LoadError
  save_failed : SaveError → LoadError
  read_failed : LoadError

-- The files after a load, and the pair `(Config, error)` that it returns.
pub record Loaded (B : Type 0) : Type 0 where
  pub files : Files B
  pub config : Config
  pub error : Option LoadError

module _ {B : Type 0} where
  -- A save that ends a load: its error becomes the load's.
  unfoldable pub saved : Config → Files B × Option SaveError → Loaded B
  saved config (files, none) = record { files = files; config = config; error = none }
  saved config (files, some e) = record {
    files = files;
    config = config;
    error = some (save_failed e);
  }

  -- A configuration with a new key, saved by `save`; without a key it is returned with the error.
  unfoldable pub with_new_key :
      Config
      → Result KeyError Text
      → (Config → Files B → Files B × Option SaveError)
      → Files B
      → Loaded B
  unfolding saved
  with_new_key config (err e) save files = record {
    files = files;
    config = config;
    error = some (key_failed e);
  }
  with_new_key config (ok key) save files =
      let keyed = record config { local_key = key } in saved keyed (save keyed files)

  -- What becomes of a parsed file, or of one that is no JSON: the default settings, with no error.
  unfoldable pub use_parsed :
      Option Config
      → Result KeyError Text
      → (Config → Files B → Files B × Option SaveError)
      → Files B
      → Loaded B
  unfolding with_new_key
  use_parsed none key save files = record { files = files; config = default_config; error = none }
  use_parsed (some config) key save files =
      if text_eq config.local_key []
      then with_new_key config key save files
      else record { files = files; config = config; error = none }

  unfoldable pub use_contents :
      Machine B → Option B → (Config → Files B → Files B × Option SaveError) → Files B → Loaded B
  unfolding use_parsed
  use_contents m none save files = record {
    files = files;
    config = zero_config;
    error = some read_failed;
  }
  use_contents m (some b) save files =
      if m.read_fails
      then record { files = files; config = zero_config; error = some read_failed }
      else use_parsed (m.unmarshal b) (generate_system_key m) save files

  -- `os.IsNotExist` of `os.Stat`
  abbrev pub is_missing : Machine B → Text → Files B → Bool
  is_missing m path files =
      not m.stat_fails && elim (lookup path files) [ none ↦ true | some b ↦ false ]

  unfoldable pub load_config_from_path : Machine B → Text → Files B → Loaded B
  unfolding with_new_key use_contents
  load_config_from_path m path files =
      if is_missing m path files
      then with_new_key default_config (generate_system_key m) (save_config_to_path m path) files
      else use_contents m (lookup path files) (print_and_write m path) files

  -- `LoadConfig` saves by `SaveConfig`, which finds the working directory again.
  unfoldable pub load_config : Machine B → Files B → Loaded B
  unfolding with_new_key use_contents
  load_config m files = elim m.working_dir [
    | none ↦ record { files = files; config = zero_config; error = some no_current_dir }
    | some wd ↦
        if is_missing m (config_file wd) files
        then with_new_key default_config (generate_system_key m) (save_config m) files
        else use_contents m (lookup (config_file wd) files) (save_config m) files
  ]
