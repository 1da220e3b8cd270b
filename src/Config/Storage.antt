-- ===== src/Config/Storage.antt =====
-- What the configuration code asks of the system, and how it makes keys and writes files. The JSON
-- printer and reader, the digest, the clock of failures and the files are arguments.
use system_monitor_go.Base.{
  ℕ, ◌+◌, ◌-◌, ◌/◌, ◌%◌, Bool, List, [], ◌∷◌, ◌++◌, Option, none, some, Text, codes, Result, ok,
  err, insert, ltb, if◌then◌else◌, has_suffix,
}
use system_monitor_go.Config.Settings.{Config}

-- How a write ends: done, refused with the file left alone, or broken off with `b` in the file.
pub data WriteFate (B : Type 0) : Type 0 where
  done : WriteFate B
  refused : WriteFate B
  torn : B → WriteFate B

-- The system during one call. `B` is the type of a file's contents.
pub record Machine (B : Type 0) : Type 0 where
  pub working_dir : Option Text
  pub hostname : Option Text
  -- the sixteen bytes of `rand.Read`
  pub random : Option (List ℕ)
  -- the bytes of `sha512.Sum512`
  pub digest : Text → List ℕ
  pub marshal : Config → Option B
  pub unmarshal : B → Option Config
  -- an error of `os.Stat` that is not "not exist", and an error of `os.ReadFile`
  pub stat_fails : Bool
  pub read_fails : Bool
  pub mkdir_fails : Bool
  pub writing : WriteFate B

abbrev pub Files : Type 0 → Type 0
Files B = List (Text × B)

pub data KeyError : Type 0 where
  no_hostname : KeyError
  no_random : KeyError

abbrev hex_digit : ℕ → ℕ
hex_digit d = if ltb d 10 then b'0' + d else b'a' + (d - 10)

-- `hex.EncodeToString`, and `%x` of a byte slice
unfoldable pub hex : List ℕ → Text
hex [] = []
hex (b ∷ bs) = hex_digit (b / 16) ∷ hex_digit (b % 16) ∷ hex bs

pub data SaveError : Type 0 where
  no_working_dir : SaveError
  no_directory : SaveError
  not_printable : SaveError
  not_written : SaveError

-- `filepath.Join` of a clean directory and a clean relative name
unfoldable pub join_path : Text → Text → Text
join_path dir name = if has_suffix dir (codes "/") then dir ++ name else dir ++ b'/' ∷ name

abbrev pub config_file : Text → Text
config_file wd = join_path wd (codes "configs/config.json")

unfoldable pub write_as :
    {B : Type 0} → Text → B → Files B → WriteFate B → Files B × Option SaveError
write_as path b files done = (insert path b files, none)
write_as path b files refused = (files, some not_written)
write_as path b files (torn part) = (insert path part files, some not_written)

module _ {B : Type 0} (m : Machine B) where
  unfoldable pub key_of : Option Text → Option (List ℕ) → Result KeyError Text
  unfolding hex
  key_of none bytes = err no_hostname
  key_of (some host) none = err no_random
  key_of (some host) (some bytes) = ok (hex (m.digest (host ++ codes "_" ++ hex bytes)))

  unfoldable pub generate_system_key : Result KeyError Text
  unfolding key_of
  generate_system_key = key_of m.hostname m.random

  -- `os.WriteFile`
  unfoldable pub write_file : Text → B → Files B → Files B × Option SaveError
  unfolding write_as
  write_file path b files = write_as path b files m.writing

  -- Printing and writing, as every save ends.
  unfoldable pub print_and_write : Text → Config → Files B → Files B × Option SaveError
  unfolding write_file
  print_and_write path config files = elim (m.marshal config) [
    | none ↦ (files, some not_printable)
    | some b ↦ write_file path b files
  ]

  -- `saveConfigToPath` of cmd/system-monitor/main.go
  unfoldable pub save_config_to_path : Text → Config → Files B → Files B × Option SaveError
  unfolding print_and_write
  save_config_to_path path config files =
      if m.mkdir_fails then (files, some no_directory) else print_and_write path config files

  -- `SaveConfig`
  unfoldable pub save_config : Config → Files B → Files B × Option SaveError
  unfolding save_config_to_path
  save_config config files = elim m.working_dir [
    | none ↦ (files, some no_working_dir)
    | some wd ↦ save_config_to_path (config_file wd) config files
  ]
