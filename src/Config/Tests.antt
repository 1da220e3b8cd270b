-- ===== src/Config/Tests.antt =====
-- Loads at concrete inputs. A file holds a configuration, or `none` where it is no JSON.
use system_monitor_go.Base.{
  ◌≡◌, refl, ◌⊎◌, false, [], ◌∷◌, Option, none, some, Text, codes, lookup, text_eq, insert,
  has_suffix,
}
use system_monitor_go.Config.Settings.{Config, default_config}
use system_monitor_go.Config.Storage.{
  Machine, done, torn, generate_system_key, save_config_to_path, save_config, join_path,
  not_written,
}
use system_monitor_go.Config.Loading.{save_failed, load_config_from_path, load_config}
use system_monitor_go.Config.Reload.{
  Documented, Stored, Unparsed, load_config_from_path-Stored, load-load,
}

abbrev machine : Machine (Option Config)
machine = record {
  working_dir = some (codes "/srv");
  hostname = some (codes "h");
  random = some (7 ∷ []);
  digest = λ t. 0xab ∷ [];
  marshal = λ c. some (some c);
  unmarshal = λ b. b;
  stat_fails = false;
  read_fails = false;
  mkdir_fails = false;
  writing = done;
}

abbrev path : Text
path = codes "/srv/configs/config.json"

machine-Documented : Documented machine path
machine-Documented = record { read_back = λ c b e. documented_read c b e; digest_bytes = λ t. cc }
  where
    documented_read : (c : Config) (b : Option Config) → some (some c) ≡ some b → b ≡ some c
    documented_read c b e = cc

abbrev first_config : Config
first_config = record default_config { local_key = codes "ab" }

-- The first start makes a key and a file.
first_load :
    load_config_from_path machine path []
    ≡ record { files = (path, some first_config) ∷ []; config = first_config; error = none }
unfolding load_config_from_path lookup text_eq insert generate_system_key save_config_to_path
first_load = refl

-- A write that breaks off is an error, and the broken file stays.
broken_off : load_config_from_path (record machine { writing = torn none }) path [] ≡ record {
  files = (path, none) ∷ [];
  config = first_config;
  error = some (save_failed not_written);
}
unfolding load_config_from_path lookup text_eq insert generate_system_key save_config_to_path
broken_off = refl

-- `LoadConfig` looks in the working directory.
from_working_dir : (load_config machine []).files ≡ (path, some first_config) ∷ []
unfolding load_config lookup text_eq insert generate_system_key save_config_to_path save_config
    join_path has_suffix
from_working_dir = refl

-- A file that is no JSON gives the default settings, without a key and without an error.
garbled :
    load_config_from_path machine path ((path, none) ∷ [])
    ≡ record { files = (path, none) ∷ []; config = default_config; error = none }
unfolding load_config_from_path lookup text_eq insert generate_system_key save_config_to_path
garbled = refl

load_config_from_path-Stored_example :
    Stored machine path (load_config_from_path machine path [])
    ⊎ Unparsed machine path [] (load_config_from_path machine path [])
unfolding load_config_from_path lookup text_eq insert generate_system_key save_config_to_path
load_config_from_path-Stored_example =
    load_config_from_path-Stored machine path [] machine-Documented refl

load-load_example :
    load_config_from_path machine path (load_config_from_path machine path []).files ≡ record {
      files = (load_config_from_path machine path []).files;
      config = (load_config_from_path machine path []).config;
      error = none;
    }
unfolding load_config_from_path lookup text_eq insert generate_system_key save_config_to_path
load-load_example = load-load machine machine path [] machine-Documented refl refl refl
