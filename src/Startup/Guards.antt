-- ===== src/Startup/Guards.antt =====
-- When `main` gets as far as a connected client.
use system_monitor_go.Base.{
  ℕ, ◌≡◌, ◌≢◌, refl, sym, ap, ◌∙◌, Bool, true, false, ◌&&◌, [], Option, none, some, arith, Text,
  ret, text_eq, text_eq_iff, if◌then◌else◌,
}
use system_monitor_go.ExternalIp.{Reply}
use system_monitor_go.Config.Settings.{Config}
use system_monitor_go.Config.Storage.{Machine, Files}
use system_monitor_go.Client.SystemClient.{
  Manager, SystemClient, new_system_client, initialize, client_connect,
}
use system_monitor_go.Startup.{
  parse_server, get_config_path, load_app_config, apply_flag, connected, start_client,
  start_with_key, start_loaded, run_main,
}

-- The key that the reports are sent under.
abbrev pub user_of : Text → Config → Text
user_of flag config = if text_eq flag [] then config.user_key else flag

-- A client that was made from a configuration and a key on the command line.
abbrev pub MadeFrom : {M D : Type 0} → Config → Text → SystemClient M D → Type 0
MadeFrom config flag c =
    (c.user_id ≡ user_of flag config)
    × (c.user_id ≢ [])
    × (c.system_key ≡ config.local_key)
    × (c.server_info ≡ parse_server config.server_url)
    × (c.is_disconnected ≡ false)

apply_flag-config :
    {B : Type 0} (m : Machine B) (flag : Text) (path : Option Text) (config : Config)
    (files : Files B)
    → (apply_flag m flag path config files).1 ≡ record config { user_key = user_of flag config }
unfolding apply_flag
apply_flag-config m flag path config files = ground arith

user-ne-nil :
    (flag : Text) (config : Config)
    → (text_eq flag [] && text_eq (user_of flag config) []) ≡ false
    → user_of flag config ≢ []
user-ne-nil flag config h e = ground (
  arith,
  text_eq_iff flag [],
  text_eq_iff config.user_key [],
  text_eq_iff (user_of flag config) [],
)

module _ {M D : Type 0} (make : Config → Manager M) where
  start_client-connected :
      (dial : Option ℕ) (config : Config) (c : SystemClient M D)
      → start_client make dial config ≡ ret (connected c)
      → (dial ≢ none)
        × (c.user_id ≡ config.user_key)
        × (c.system_key ≡ config.local_key)
        × (c.server_info ≡ parse_server config.server_url)
        × (c.is_disconnected ≡ false)
  unfolding start_client client_connect initialize new_system_client
  start_client-connected none config c h = absurd (cc)
  start_client-connected (some k) config c h = ground arith

  start_with_key-connected :
      (dial : Option ℕ) (flag : Text) (config : Config) (c : SystemClient M D)
      → start_with_key make dial flag config ≡ ret (connected c)
      → ((text_eq flag [] && text_eq config.user_key []) ≡ false)
        × (start_client {D = D} make dial config ≡ ret (connected c))
  unfolding start_with_key
  start_with_key-connected dial flag config c h = ground arith

  keyed-MadeFrom :
      (dial : Option ℕ) (flag : Text) (config : Config) (c : SystemClient M D)
      → start_with_key make dial flag (record config { user_key = user_of flag config })
        ≡ ret (connected c)
      → (dial ≢ none) × MadeFrom config flag c
  keyed-MadeFrom dial flag config c h =
      let keyed = record config { user_key = user_of flag config } in
      let (has_key, started) = start_with_key-connected dial flag keyed c h in
      let (up, user, key, server, live) = start_client-connected dial keyed c started in
      (up, (user, rw user (user-ne-nil flag config has_key), key, server, live))

  loaded-MadeFrom :
      {B : Type 0} (m : Machine B) (dial : Option ℕ) (flag : Text) (path : Option Text)
      (loaded : Files B × Option Config) (c : SystemClient M D)
      → (start_loaded m make dial flag path loaded).1 ≡ ret (connected c)
      → (config : Config) × (loaded.1 ≡ some config) × (dial ≢ none) × MadeFrom config flag c
  unfolding start_loaded
  loaded-MadeFrom m dial flag path (files, none) c h = absurd (cc)
  loaded-MadeFrom m dial flag path (files, some config) c h =
      let (up, made) = keyed-MadeFrom dial flag config c (
        ap (start_with_key make dial flag) (sym (apply_flag-config m flag path config files))
        ∙ h) in
      (config, refl, up, made)

  -- The program gets to a connected client only as root, with a configuration that was loaded and a
  -- dialler that answered; and then the client carries a key that is not empty, the one of the
  -- command line if there is one and else the stored one, with the loaded system key and the server
  -- that the loaded address names.
  pub run_main-connected :
      {B : Type 0} (m : Machine B) (reply : Text → Reply) (dial : Option ℕ) (root : Bool)
      (exec_dir : Option Text) (flag : Text) (files : Files B) (c : SystemClient M D)
      → (run_main m reply make dial root exec_dir flag files).1 ≡ ret (connected c)
      → (root ≡ true)
        × ((config : Config) × ((load_app_config m reply (get_config_path exec_dir) files).1
              ≡ some config)
            × (dial ≢ none)
            × MadeFrom config flag c)
  unfolding run_main
  run_main-connected m reply dial false exec_dir flag files c h = absurd (cc)
  run_main-connected m reply dial true exec_dir flag files c h = (
    refl,
    loaded-MadeFrom m dial flag (get_config_path exec_dir)
        (load_app_config m reply (get_config_path exec_dir) files) c h,
  )
