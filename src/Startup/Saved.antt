-- ===== src/Startup/Saved.antt =====
-- What `loadConfig` and the command-line key leave in the file: the configuration that the program runs
-- with.
use system_monitor_go.Base.{
  ◌≡◌, ◌≢◌, refl, ap, ◌∙◌, inl, inr, Bool-cases, Option-cases, false, [], Option, none, some, Text,
  Result, ok, err, lookup, insert, lookup-insert, text_eq, text_eq_refl,
}
use system_monitor_go.ExternalIp.{Reply, FetchError, get_external_ip}
use system_monitor_go.Config.Settings.{Config}
use system_monitor_go.Config.Storage.{
  Machine, Files, done, write_as, write_file, print_and_write, save_config_to_path,
}
use system_monitor_go.Config.Loading.{Loaded, load_config_from_path}
use system_monitor_go.Config.Reload.{Documented, load_config_from_path-Stored}
use system_monitor_go.Startup.{with_external_ip, use_loaded, load_app_config, apply_flag}
use system_monitor_go.Startup.Guards.{user_of}

module _ {B : Type 0} (m : Machine B) (path : Text) where
  -- The system prints and writes, what is printed is read back, and no digest is empty.
  pub record Writes : Type 0 where
    pub documented : Documented m path
    pub prints : (c : Config) → (b : B) × (m.marshal c ≡ some b)
    pub makes_directories : m.mkdir_fails ≡ false
    pub finishes : m.writing ≡ done

  -- The file has this configuration, with a key.
  abbrev pub Holds : Files B → Config → Type 0
  Holds files config =
      (config.local_key ≢ [])
      × (b : B) × (lookup path files ≡ some b)
      × (m.unmarshal b ≡ some config)

  writes :
      (config : Config) (b : B) (files : Files B)
      → m.marshal config ≡ some b
      → print_and_write m path config files ≡ write_as path b files m.writing
  unfolding print_and_write write_file
  writes config b files e = rw (e, print_and_write) refl

  saves :
      (config : Config) (b : B) (files : Files B)
      → Writes
      → m.marshal config ≡ some b
      → save_config_to_path m path config files ≡ (insert path b files, none)
  unfolding save_config_to_path write_as
  saves config b files w e =
      simp (w.makes_directories) (writes config b files e ∙ ap (write_as path b files) w.finishes)

  save-Holds :
      (config : Config) (files : Files B)
      → Writes
      → config.local_key ≢ []
      → Holds (save_config_to_path m path config files).0 config
  save-Holds config files w k =
      let (b, e) = w.prints config in
      rw (saves config b files w e)
        (k, b, rw (lookup-insert, text_eq_refl) refl, w.documented.read_back config b e)

  -- A configuration that comes back with a key is the one in the file.
  unfoldable pub Kept : Files B × Option Config → Type 0
  Kept (files, none) = Unit
  Kept (files, some config) = config.local_key ≢ [] → Holds files config

  ip-Kept :
      (config : Config) (files : Files B) (found : Result (Option FetchError) Text)
      → Writes
      → (config.local_key ≢ [] → Holds files config)
      → Kept (with_external_ip m path config found files)
  unfolding with_external_ip Kept
  ip-Kept config files (err x) w h = h
  ip-Kept config files (ok ip) w h = λ k. save-Holds (record config { external_ip = ip }) files w k

  use-Kept :
      (reply : Text → Reply) (r : Loaded B)
      → Writes
      → (r.config.local_key ≢ [] → Holds r.files r.config)
      → Kept (use_loaded m reply path r none)
  unfolding use_loaded Kept
  use-Kept reply r w h = elim (Bool-cases (text_eq r.config.external_ip [])) [
    | inl e ↦ rw (e, use_loaded) (ip-Kept r.config r.files (get_external_ip reply) w h)
    | inr e ↦ rw (e, use_loaded) h
  ]

  pub load_app_config-Kept :
      (reply : Text → Reply) (files : Files B)
      → Writes
      → Kept (load_app_config m reply (some path) files)
  unfolding load_app_config Kept
  load_app_config-Kept reply files w =
      let r = load_config_from_path m path files in
      elim (Option-cases r.error) [
        | inr (x, e) ↦ rw (e, use_loaded) tt
        | inl e ↦ rw e (
            use-Kept reply r w (elim (load_config_from_path-Stored m path files w.documented e) [
              | inl stored ↦ λ k. stored
              | inr (b, l, f, c, same) ↦ λ k. absurd (k (ap (λ c. c.local_key) c))
            ]))
      ]

  pub flag-Holds :
      (flag : Text) (config : Config) (files : Files B)
      → Writes
      → Holds files config
      → Holds
          (apply_flag m flag (some path) config files).0
          (record config { user_key = user_of flag config })
  unfolding apply_flag
  flag-Holds flag config files w h = elim (Bool-cases (text_eq flag [])) [
    | inl e ↦ rw (e, apply_flag) h
    | inr e ↦ rw (e, apply_flag) (save-Holds (record config { user_key = flag }) files w h.0)
  ]
