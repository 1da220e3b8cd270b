-- ===== src/Startup.antt =====
-- cmd/system-monitor/main.go: from the command line to a connected client. The directory of the
-- executable, the effective user, the dialler's answer and the replies of the address services are
-- arguments; a signal that ends the program afterwards is a `Disconnect` of the client.
pub mod Server
pub mod Guards
pub mod Saved
pub mod Restart
mod Tests
use system_monitor_go.Base.{
  ℕ, Bool, true, false, List, [], ◌∷◌, Option, none, some, ℤ, pos, Text, codes, Result, ok, err,
  Outcome, ret, panic, ◌>>=◌, text_eq, ◌&&◌, split, atoi, if◌then◌else◌,
}
use system_monitor_go.ExternalIp.{Reply, FetchError, get_external_ip}
use system_monitor_go.Config.Settings.{Config}
use system_monitor_go.Config.Storage.{Machine, Files, join_path, save_config_to_path}
use system_monitor_go.Config.Loading.{Loaded, LoadError, load_config_from_path}
use system_monitor_go.Client.DataSender.{ServerInfo}
use system_monitor_go.Client.SystemClient.{
  Manager, SystemClient, new_system_client, initialize, client_connect,
}

-- `getConfigPath`, from the directory of the executable if that is known
unfoldable pub get_config_path : Option Text → Option Text
unfolding join_path
get_config_path none = none
get_config_path (some exec_dir) = some (join_path exec_dir (codes "configs/config.json"))

port_or : Option ℤ → ℤ
port_or none = pos 8080
port_or (some port) = port

server_of : List Text → ServerInfo
unfolding port_or
server_of [] = record { address = []; port = pos 8080 }
server_of (host ∷ []) = record { address = host; port = pos 8080 }
server_of (host ∷ port ∷ rest) = record { address = host; port = port_or (atoi port) }

-- How `main` reads `serverUrl`: the text before the first colon, and the number up to the next one.
unfoldable pub parse_server : Text → ServerInfo
unfolding server_of split atoi
parse_server url = server_of (split url b':')

module _ {B : Type 0} (m : Machine B) where
  with_external_ip :
      Text → Config → Result (Option FetchError) Text → Files B → Files B × Option Config
  with_external_ip path config (err e) files = (files, some config)
  with_external_ip path config (ok ip) files =
      let found = record config { external_ip = ip } in
      ((save_config_to_path m path found files).0, some found)

  use_loaded : (Text → Reply) → Text → Loaded B → Option LoadError → Files B × Option Config
  unfolding with_external_ip
  use_loaded reply path r (some e) = (r.files, none)
  use_loaded reply path r none =
      if text_eq r.config.external_ip []
      then with_external_ip path r.config (get_external_ip reply) r.files
      else (r.files, some r.config)

  -- `loadConfig`: a missing address is asked for and saved; a failure of either is only logged.
  unfoldable pub load_app_config : (Text → Reply) → Option Text → Files B → Files B × Option Config
  unfolding use_loaded
  load_app_config reply none files = (files, none)
  load_app_config reply (some path) files =
      let r = load_config_from_path m path files in use_loaded reply path r r.error

  -- The command-line key replaces the stored one and is saved, if there is a path to save it to.
  unfoldable pub apply_flag : Text → Option Text → Config → Files B → Files B × Config
  apply_flag flag path config files =
      let keyed = record config { user_key = flag } in
      if text_eq flag [] then (files, config) else elim path [
        | none ↦ (files, keyed)
        | some p ↦ ((save_config_to_path m p keyed files).0, keyed)
      ]

-- How `main` gets to its end, or to the wait for a signal.
pub data Ending (M D : Type 0) : Type 0 where
  not_root : Ending M D
  no_config : Ending M D
  no_key : Ending M D
  not_connected : SystemClient M D → Ending M D
  connected : SystemClient M D → Ending M D

module _ {M D : Type 0} where
  connection : Outcome (SystemClient M D × Bool) → Outcome (Ending M D)
  connection (panic p) = panic p
  connection (ret (c, up)) = ret (if up then connected c else not_connected c)

  -- From the configuration on; `Initialize` is given a `config.Config`, so it makes no error.
  start_client : (Config → Manager M) → Option ℕ → Config → Outcome (Ending M D)
  unfolding connection
  start_client make dial config =
      let fresh =
        new_system_client (parse_server config.server_url) config.local_key
          config.collection_interval config.sending_interval config.user_key in
      connection (client_connect dial (initialize make (some config) fresh).0)

  start_with_key : (Config → Manager M) → Option ℕ → Text → Config → Outcome (Ending M D)
  unfolding start_client
  start_with_key make dial flag config =
      if text_eq flag [] && text_eq config.user_key []
      then ret no_key
      else start_client make dial config

  start_loaded :
      {B : Type 0}
      → Machine B
      → (Config → Manager M)
      → Option ℕ
      → Text
      → Option Text
      → Files B × Option Config
      → Files B × Outcome (Ending M D)
  unfolding start_with_key
  start_loaded m make dial flag path (files, none) = (files, ret no_config)
  start_loaded m make dial flag path (files, some config) =
      let (files', config') = apply_flag m flag path config files in
      (files', start_with_key make dial flag config')

  -- `main`, up to the wait for a signal
  unfoldable pub run_main :
      {B : Type 0}
      → Machine B
      → (Text → Reply)
      → (Config → Manager M)
      → Option ℕ
      → Bool
      → Option Text
      → Text
      → Files B
      → Files B × Outcome (Ending M D)
  unfolding start_loaded
  run_main m reply make dial root exec_dir flag files =
      let path = get_config_path exec_dir in
      if root
      then start_loaded m make dial flag path (load_app_config m reply path files)
      else (files, ret not_root)
