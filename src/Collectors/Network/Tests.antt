-- ===== src/Collectors/Network/Tests.antt =====
-- Runs of the network collector, and its theorems at concrete inputs.
use system_monitor_go.Base.{
  ◌==◌, if◌then◌else◌, ℕ, ℤ, ◌*◌, text_eq, ◌≡◌, refl, Option, none, some, List, [], ◌∷◌, map, Text,
  codes, ok, err, pos, Result, sub_time, Returns,
}
use system_monitor_go.Base.Floats.{whole, float_seconds}
use system_monitor_go.Config.Settings.{NetworkCollectorSettings, default_config}
use system_monitor_go.Models.Network.{NetworkMetrics}
use system_monitor_go.Collectors.Network.{
  InterfaceStat, IoCounters, Answers, NetworkCollector, blank_collector, get_interface_type,
}
use system_monitor_go.Collectors.Network.Metrics.{
  with_addrs, described, collect_network_metrics, new_network_collector, collect, collect_and_cache,
}
use system_monitor_go.Collectors.Network.Reported.{up_interfaces, last_listed, run}
use system_monitor_go.Collectors.Composed.{collect_all-up}
use system_monitor_go.Collectors.Master.Fields.{Results, Gives, replies, as_payload}
use system_monitor_go.Collectors.Master.{
  MasterCollector, MakeCollectors, Payload, network_metrics, process_infos, service_infos,
  collect_all, Round, new_master_collector,
}
use mathlib.Core.List.{Permᴰ}
use system_monitor_go.Collectors.Network.Rates.{rates_between, collect_twice-rates}

abbrev ethernet : InterfaceStat
ethernet = record {
  name = codes "eth0";
  hardware_addr = codes "00:11";
  mtu = pos 1500;
  flags = codes "up" ∷ codes "broadcast" ∷ [];
  addrs = codes "192.168.1.1/24" ∷ codes "fe80::1/64" ∷ [];
}

abbrev local : InterfaceStat
local = record ethernet { name = codes "lo"; flags = codes "up" ∷ codes "loopback" ∷ [] }

abbrev counters : ℕ → IoCounters
counters n = record {
  name = codes "eth0";
  bytes_sent = n;
  bytes_recv = 3 * n;
  packets_sent = 1;
  packets_recv = 1;
  errin = 0;
  errout = 0;
  dropin = 0;
  dropout = 0;
}

abbrev answers : ℕ → Answers
answers n = record { interfaces = ok (local ∷ ethernet ∷ []); io_counters = ok (counters n ∷ []) }

abbrev no_answers : Answers
no_answers = record { interfaces = err (codes "busy"); io_counters = ok [] }

abbrev settings : NetworkCollectorSettings
settings = record { cache_duration_seconds = pos 3; update_frequency_seconds = pos 2 }

reads_addresses :
    (with_addrs whole ethernet.addrs (described whole ethernet)).ipv4 ≡ codes "192.168.1.1"
unfolding with_addrs system_monitor_go.Collectors.Network.Metrics.with_addr
    system_monitor_go.Base.split system_monitor_go.Base.contains
reads_addresses = refl

reads_type : get_interface_type (codes "WLan0") ≡ codes "Wi-Fi"
unfolding get_interface_type
reads_type = refl

-- From 4 to 1 after a restart of the counter, in one second.
wraps :
    rates_between whole 1 (counters 4 ∷ []) (counters 1 ∷ []) ethernet
    ≡ (18446744073709551607, 18446744073709551613)
unfolding rates_between text_eq
wraps = refl

abbrev numbered : MakeCollectors ℕ
numbered = record {
  system = λ s. 0;
  cpu = λ s. 1;
  memory = λ s. 2;
  disk = λ s. 3;
  container = λ s. 4;
  network = λ s. 5;
  process = λ s. 6;
  service = λ s. 7;
}

-- The last round fails.
abbrev found : Results ℕ
found = record {
  system = err (codes "down");
  cpu = err (codes "down");
  memory = err (codes "down");
  disk = err (codes "down");
  container = err (codes "down");
  network = collect whole (
      run whole (record { now = 9; after = 10; answers = no_answers } ∷ [])
        (new_network_collector whole default_config.collectors.network 5 6 (answers 4)));
  process = ok [];
  service = ok [];
}

abbrev found_payload : ℕ → Result Text (Payload ℕ)
found_payload c =
    if c == 5
    then as_payload (λ v. network_metrics v) found.network
    else if c == 6
    then ok (process_infos [])
    else if c == 7
    then ok (service_infos [])
    else err (codes "down")

-- The first two replies change places.
abbrev found_round : Round ℕ ℕ
found_round = record {
  collect = found_payload;
  order = λ rs. elim rs [ (a ∷ b ∷ cs) ↦ b ∷ a ∷ cs | cs ↦ cs ];
}

found-Gives : Gives numbered default_config.collectors found_payload found
unfolding as_payload
found-Gives = record {
  system = refl;
  cpu = refl;
  memory = refl;
  disk = refl;
  container = refl;
  network = refl;
  process = refl;
  service = refl;
}

collect_all-up_example :
    Returns {A = MasterCollector ℕ ℕ}
      (λ mc.
        map {B = Text × Text}
          (λ m. (m.interface, m.status))
          (collect_all whole mc.user_key mc.local_key mc.external_ip mc.collectors 12
            found_round).network
        ≡ (codes "eth0", codes "up") ∷ [])
      (new_master_collector numbered default_config)
unfolding last_listed up_interfaces text_eq replies
collect_all-up_example =
    collect_all-up whole numbered default_config 12 found_round found
      (record { now = 5; after = 6; answers = answers 4 })
      (record { now = 9; after = 10; answers = no_answers } ∷ []) found-Gives (Permᴰ.swap refl refl)
      refl

collect_twice-rates_example :
    (ms : List (NetworkMetrics ℕ)) × ((collect_network_metrics whole 7000000000
        (answers 9)
        (collect_network_metrics whole 5000000000 (answers 5) (blank_collector ℕ settings)).0).1
      ≡ ok ms)
    × (map {B = ℕ × ℕ} (λ m. (m.rx_bytes_per_sec, m.tx_bytes_per_sec)) ms ≡ (6, 2) ∷ [])
unfolding up_interfaces rates_between float_seconds text_eq
collect_twice-rates_example =
    collect_twice-rates whole 5000000000 7000000000 (answers 5) (answers 9)
      (blank_collector ℕ settings) (local ∷ ethernet ∷ []) (local ∷ ethernet ∷ []) (counters 5 ∷ [])
      (counters 9 ∷ []) refl refl refl refl
