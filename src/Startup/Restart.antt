-- ===== src/Startup/Restart.antt =====
-- What a second start finds of the first.
use system_monitor_go.Base.{
  ℕ, codes, ◌≡◌, ◌≢◌, refl, sym, ap, ◌∙◌, inl, inr, Bool-cases, true, false, [], Option, none, some,
  Text, Result, ok, err, ret, arith, text_eq, text_eq_iff,
}
use mathlib.Core.Path.{subst}
use system_monitor_go.ExternalIp.{Reply, FetchError, get_external_ip}
use system_monitor_go.Config.Settings.{Config}
use system_monitor_go.Config.Storage.{Machine, Files, join_path}
use system_monitor_go.Config.Reload.{load-Stored}
use system_monitor_go.Client.SystemClient.{
  Manager, SystemClient, new_system_client, initialize, client_connect,
}
use system_monitor_go.Startup.{
  parse_server, get_config_path, with_external_ip, use_loaded, load_app_config, apply_flag,
  connected, start_client, start_with_key, start_loaded, run_main,
}
use system_monitor_go.Startup.Guards.{user_of, run_main-connected}
use system_monitor_go.Startup.Saved.{Writes, Holds, Kept, load_app_config-Kept, flag-Holds}

module _ {B : Type 0} (m : Machine B) (path : Text) where
  -- What a start needs of a configuration.
  abbrev Agree : Config → Config → Type 0
  Agree c d =
      (d.user_key ≡ c.user_key) × (d.local_key ≡ c.local_key) × (d.server_url ≡ c.server_url)

  ip-Agree :
      (config : Config) (files : Files B) (found : Result (Option FetchError) Text)
      → (d : Config) × ((with_external_ip m path config found files).1 ≡ some d) × Agree config d
  unfolding with_external_ip
  ip-Agree config files (err x) = (config, refl, (refl, refl, refl))
  ip-Agree config files (ok ip) = (record config { external_ip = ip }, refl, (refl, refl, refl))

  loads_again :
      (reply : Text → Reply) (files : Files B) (config : Config)
      → Holds m path files config
      → m.read_fails ≡ false
      → (d : Config) × ((load_app_config m reply (some path) files).1 ≡ some d) × Agree config d
  unfolding load_app_config use_loaded
  loads_again reply files config h reads =
      rw (load-Stored m path (record { files = files; config = config; error = none }) h reads)
        (elim (Bool-cases (text_eq config.external_ip [])) [
          | inl e ↦ rw e (ip-Agree config files (get_external_ip reply))
          | inr e ↦ rw e (config, refl, (refl, refl, refl))
        ])

first-Holds :
    {M B : Type 0} (D : Type 0) (make : Config → Manager M) (m : Machine B) (dial : Option ℕ)
    (path flag : Text) (loaded : Files B × Option Config) (config : Config)
    → Writes m path
    → Kept m path loaded
    → loaded.1 ≡ some config
    → config.local_key ≢ []
    → Holds m path
        (start_loaded {D = D} m make dial flag (some path) loaded).0
        (record config { user_key = user_of flag config })
unfolding start_loaded Kept
first-Holds D make m dial path flag (files, none) config w kept e h = absurd (cc)
first-Holds D make m dial path flag (files, some found) config w kept e h =
    let same : found ≡ config = cc in
    subst
      (λ c.
        Holds m path (apply_flag m flag (some path) found files).0
          (record c { user_key = user_of flag c }))
      same (flag-Holds m path flag found files w (kept (rw same h)))

module _ {M D : Type 0} (make : Config → Manager M) where
  -- The client carries what the configuration says.
  abbrev Carries : Config → SystemClient M D → Type 0
  Carries config c =
      (c.user_id ≡ config.user_key)
      × (c.system_key ≡ config.local_key)
      × (c.server_info ≡ parse_server config.server_url)

  client_up :
      (k : ℕ) (config : Config)
      → (c : SystemClient M D) × (start_client make (some k) config ≡ ret (connected c))
        × Carries config c
  unfolding start_client client_connect initialize new_system_client
  client_up k config = (_, refl, (refl, refl, refl))

  keyed_up :
      (k : ℕ) (config : Config)
      → config.user_key ≢ []
      → (c : SystemClient M D) × (start_with_key make (some k) [] config ≡ ret (connected c))
        × Carries config c
  unfolding start_with_key text_eq client_connect
  keyed_up k config h =
      let keyed : text_eq config.user_key [] ≡ false =
        ground (arith, text_eq_iff config.user_key []) in
      let (c, e, f) = client_up k config in (c, simp keyed e, f)

  loaded_up :
      {B : Type 0} (m : Machine B) (k : ℕ) (path : Option Text) (loaded : Files B × Option Config)
      (config : Config)
      → loaded.1 ≡ some config
      → config.user_key ≢ []
      → (c : SystemClient M D) × ((start_loaded m make (some k) [] path loaded).1
          ≡ ret (connected c))
        × Carries config c
  unfolding start_loaded apply_flag text_eq
  loaded_up m k path (files, none) config e h = absurd (cc)
  loaded_up m k path (files, some found) config e h =
      let same : found ≡ config = cc in rw same (keyed_up k config h)

  -- Where configurations can be printed and written, what is printed is read back and no digest is
  -- empty: after a start as root that got to a connected client with a system key, a start of a
  -- program that reads the same JSON and can read the file, as root from the same directory and
  -- without a key on the command line, gets to a connected client if its dialler answers, with the
  -- same user key, system key and server, whatever its address services reply.
  pub run_main-restart :
      {B : Type 0} (m m' : Machine B) (reply reply' : Text → Reply) (dial : Option ℕ) (k : ℕ)
      (dir flag : Text) (files : Files B) (c : SystemClient M D)
      → Writes m (join_path dir (codes "configs/config.json"))
      → m'.unmarshal ≡ m.unmarshal
      → m'.read_fails ≡ false
      → (run_main m reply make dial true (some dir) flag files).1 ≡ ret (connected c)
      → c.system_key ≢ []
      → (d : SystemClient M D) × ((run_main m' reply' make
            (some k)
            true
            (some dir)
            []
            (run_main {D = D} m reply make dial true (some dir) flag files).0).1
          ≡ ret (connected d))
        × (d.user_id ≡ c.user_id)
        × (d.system_key ≡ c.system_key)
        × (d.server_info ≡ c.server_info)
  unfolding run_main get_config_path
  run_main-restart m m' reply reply' dial k dir flag files c w same reads h key =
      let path = join_path dir (codes "configs/config.json") in
      let (root, (config, loaded, dialled, (user, some_user, system, server, live))) =
        run_main-connected make m reply dial true (some dir) flag files c h in
      let stored =
        first-Holds D make m dial path flag (load_app_config m reply (some path) files) config w
          (load_app_config-Kept m path reply files w) loaded (rw system at key) in
      let (found, again, (u, s, a)) =
        loads_again m' path reply' _ _
          (stored.0, stored.1, stored.2, ap (λ f. f stored.1) same ∙ stored.3) reads in
      let (d, e, (p, q, r)) =
        loaded_up m' k (some path) (load_app_config m' reply' (some path) _) found again
          (λ q. some_user (user ∙ sym u ∙ q)) in
      (d, e, p ∙ u ∙ sym user, q ∙ s ∙ sym system, r ∙ ap parse_server a ∙ sym server)
