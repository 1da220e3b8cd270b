-- ===== src/Startup/Tests.antt =====
-- `main` at concrete inputs.
use system_monitor_go.Base.{
  ℕ, ◌≡◌, ◌≢◌, refl, true, false, [], ◌∷◌, Option, none, some, pos, Text, codes, arith, Outcome,
  ret, panic, Bool, decimal, lookup, insert, text_eq,
}
use system_monitor_go.ExternalIp.{Reply, unreachable, ask, get_external_ip}
use system_monitor_go.Config.Settings.{Config, default_config}
use system_monitor_go.Config.Storage.{
  Machine, done, join_path, generate_system_key, save_config_to_path,
}
use system_monitor_go.Config.Loading.{load_config_from_path}
use system_monitor_go.Client.SystemClient.{
  Manager, SystemClient, client_connect, initialize, new_system_client,
}
use system_monitor_go.Startup.{
  parse_server, get_config_path, load_app_config, apply_flag, Ending, not_root, no_key, connected,
  run_main,
}
use system_monitor_go.Startup.Server.{parse_server-host_port}
use system_monitor_go.Startup.Guards.{MadeFrom, run_main-connected}
use system_monitor_go.Startup.Saved.{Writes}
use system_monitor_go.Startup.Restart.{run_main-restart}

parse_default :
    parse_server default_config.server_url
    ≡ record { address = codes "1.209.148.143"; port = pos 8087 }
unfolding parse_server
parse_default = refl

parse_server-host_port_example :
    (parse_server (codes "http:8087")
      ≡ record { address = codes "http"; port = pos (decimal (codes "8087")) })
    × (parse_server (codes "http") ≡ record { address = codes "http"; port = pos 8080 })
    × (parse_server (codes "http://host:8087") ≡ record { address = codes "http"; port = pos 8080 })
parse_server-host_port_example =
    parse_server-host_port (codes "http") (codes "8087") (codes "host:8087") (omega arith) (cc)
      (omega arith) (omega arith)

abbrev machine : Machine (Option Config)
machine = record {
  working_dir = none;
  hostname = some (codes "h");
  random = some (7 ∷ []);
  digest = λ t. 0xab ∷ [];
  marshal = λ c. some (some c);
  unmarshal = λ b. b;
  stat_fails = false;
  read_fails = false;
  mkdir_fails = false;
  writing = done;
}

abbrev make : Config → Manager ℕ
make config = record { data_queue = record { items = []; size = 100 }; started = 0 }

abbrev silent : Text → Reply
silent s = unreachable

not_as_root :
    (run_main {M = ℕ} {D = ℕ} machine silent make
      (some 4)
      false
      (some (codes "/opt"))
      (codes "key")
      []).1
    ≡ ret not_root
unfolding run_main
not_as_root = refl

without_key :
    (run_main {M = ℕ} {D = ℕ} machine silent make (some 4) true (some (codes "/opt")) [] []).1
    ≡ ret no_key
unfolding run_main load_app_config get_config_path load_config_from_path lookup insert
    generate_system_key save_config_to_path text_eq get_external_ip ask apply_flag
without_key = refl

-- A start as root with a key on the command line, on a machine without a configuration file.
abbrev started : Outcome (Ending ℕ ℕ)
started = (run_main machine silent make (some 4) true (some (codes "/opt")) (codes "key") []).1

abbrev first_config : Config
first_config = record default_config { local_key = codes "ab" }

loads_first :
    (load_app_config machine silent (get_config_path (some (codes "/opt"))) []).1
    ≡ some first_config
unfolding load_app_config get_config_path load_config_from_path lookup insert generate_system_key
    save_config_to_path text_eq get_external_ip ask apply_flag
loads_first = refl

started_client : SystemClient ℕ ℕ
unfolding run_main load_app_config get_config_path client_connect initialize new_system_client
    load_config_from_path lookup insert generate_system_key save_config_to_path text_eq
    get_external_ip ask apply_flag
started_client = elim started [ ret e ↦ client_of e | panic p ↦ blank ]
  where
    blank : SystemClient ℕ ℕ
    blank = new_system_client (record { address = []; port = pos 0 }) [] (pos 0) (pos 0) []

    client_of : Ending ℕ ℕ → SystemClient ℕ ℕ
    client_of (connected c) = c
    client_of _ = blank

is_started : started ≡ ret (connected started_client)
unfolding started_client
is_started = refl

run_main-connected_example :
    (◌≡◌ {A = Bool} true true)
    × ((config : Config) × ((load_app_config machine silent
            (get_config_path (some (codes "/opt")))
            []).1
          ≡ some config)
        × (◌≢◌ {A = Option ℕ} (some 4) none)
        × MadeFrom config (codes "key") started_client)
run_main-connected_example =
    run_main-connected make machine silent (some 4) true (some (codes "/opt")) (codes "key") []
      started_client is_started

abbrev config_path : Text
config_path = join_path (codes "/opt") (codes "configs/config.json")

machine-Writes : Writes machine config_path
machine-Writes = record {
  documented = record { read_back = λ c b e. documented_read c b e; digest_bytes = λ t. cc };
  prints = λ c. (some c, refl);
  makes_directories = refl;
  finishes = refl;
}
  where
    documented_read : (c : Config) (b : Option Config) → some (some c) ≡ some b → b ≡ some c
    documented_read c b e = cc

started_key : started_client.system_key ≡ codes "ab"
unfolding started_client
started_key = refl

-- The second start has another random source, and no key on the command line.
abbrev machine_later : Machine (Option Config)
machine_later = record machine { random = none }

run_main-restart_example :
    (d : SystemClient ℕ ℕ) × ((run_main machine_later silent make
        (some 5)
        true
        (some (codes "/opt"))
        []
        (run_main {D = ℕ} machine silent make
          (some 4)
          true
          (some (codes "/opt"))
          (codes "key")
          []).0).1
      ≡ ret (connected d))
    × (d.user_id ≡ started_client.user_id)
    × (d.system_key ≡ started_client.system_key)
    × (d.server_info ≡ started_client.server_info)
run_main-restart_example =
    run_main-restart make machine machine_later silent silent (some 4) 5 (codes "/opt")
      (codes "key") [] started_client machine-Writes refl refl is_started (λ e. cc (e, started_key))
