-- ===== src/Collectors/Container/Tests.antt =====
-- Runs of the container collector, and its theorems at concrete inputs.
use system_monitor_go.Base.{
  ℕ, ◌≤◌, ◌≡◌, ◌≢◌, refl, arith, List, [], ◌∷◌, ◌++◌, map, All, Lacks, Option, none, some, Result,
  ok, err, ret, panic, nil_dereference, index_out_of_range, Text, codes, pos, text_eq, Outcome,
  byte_length,
}
use system_monitor_go.Base.Floats.{whole}
use system_monitor_go.Models.Container.{DockerContainer}
use system_monitor_go.Collectors.Container.{DockerStats, Details, Listed}
use system_monitor_go.Collectors.Container.Usage.{calculate_cpu_usage, calculate_network_io}
use system_monitor_go.Collectors.Container.Convert.{convert_env}
use system_monitor_go.Collectors.Container.Collection.{gather, container_metric}
use system_monitor_go.Collectors.Container.Totals.{calculate_network_io-total}
use system_monitor_go.Collectors.Container.Parts.{HasParts}
use system_monitor_go.Collectors.Container.Gather.{gather_ids, answered_ids, is_answered}

abbrev some_stats : DockerStats
some_stats = record {
  pids_current = 3;
  total_usage = 300;
  percpu_usage = 1 ∷ 2 ∷ [];
  system_cpu_usage = 1100;
  online_cpus = 0;
  pre_total_usage = 100;
  pre_system_cpu_usage = 1000;
  memory_usage = 50;
  memory_limit = 200;
  io_service_bytes =
      record { op = codes "Read"; value = 7 }
      ∷ record { op = codes "Sync"; value = 9 }
      ∷ record { op = codes "Read"; value = 5 }
      ∷ record { op = codes "Write"; value = 1 }
      ∷ [];
  networks = (codes "eth0", record { rx_bytes = 10; tx_bytes = 20 }) ∷ [];
}

-- Two processors are counted where the number of those online is zero.
two_processors : calculate_cpu_usage whole some_stats ≡ 400
unfolding calculate_cpu_usage
two_processors = refl

network_totals : calculate_network_io some_stats ≡ (pos 10, pos 20)
unfolding system_monitor_go.Base.to_int64
network_totals = calculate_network_io-total some_stats

-- A variable without a value.
no_value : convert_env (codes "HOME" ∷ []) ≡ record { key = codes "HOME"; value = [] } ∷ []
unfolding convert_env
no_value = refl

abbrev some_details : Details
some_details = record {
  base = some (record {
    created = codes "today";
    restart_count = pos 0;
    state = some (record { health = none });
  });
  mounts = [];
  config = some (record { labels = []; env = codes "A=1" ∷ [] });
  network_settings = some (record {
    ports = [];
    networks =
        (
          codes "bridge",
          some (record { ip_address = codes "172.17.0.2"; mac_address = codes "02:42" }),
        )
        ∷ [];
  });
}

some_details-HasParts : HasParts some_details
some_details-HasParts = record {
  base = _;
  base_eq = refl;
  config = _;
  config_eq = refl;
  state = _;
  state_eq = refl;
  log = tt;
  net = _;
  net_eq = refl;
  endpoints = (λ e. cc e, tt);
}

abbrev web : Listed
web = record {
  id = codes "0123456789ab";
  names = codes "/web" ∷ [];
  image = codes "nginx";
  status = codes "Up";
  inspect = ok some_details;
  stats_error = none;
  body_error = none;
  stats = ok some_stats;
}

abbrev gone : Listed
gone = record web { id = codes "ba9876543210"; inspect = err (codes "no such container") }

abbrev nameless : Listed
nameless = record web { names = [] }

-- `cont.Names[0]` of a container without names
no_names : container_metric whole nameless ≡ panic index_out_of_range
unfolding container_metric
no_names = refl

-- A reply without its network settings
no_settings :
    container_metric whole
      (record web { inspect = ok (record some_details { network_settings = none }) })
    ≡ panic nil_dereference
unfolding container_metric
no_settings = refl

gather_ids_example :
    (ms : List (DockerContainer whole.F)) × (gather whole (gone ∷ web ∷ []) ≡ ret ms)
    × (map (λ m. m.id) ms ≡ codes "0123456789ab" ∷ [])
unfolding answered_ids is_answered byte_length
gather_ids_example =
    gather_ids whole (gone ∷ web ∷ [])
      ((λ e. cc e, omega arith, tt), ((λ e. cc e, omega arith, some_details-HasParts), tt))
