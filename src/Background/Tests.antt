-- ===== src/Background/Tests.antt =====
-- Runs of the goroutines with tickers, and their theorem at a concrete input.
use system_monitor_go.Base.{
  ℕ, ℤ, pos, true, false, ◌≡◌, refl, Option, none, some, List, [], ◌∷◌, codes, Time, Result, ok,
  err, Outcome, ret, panic, non_positive_ticker,
}
use system_monitor_go.Base.Floats.{whole}
use system_monitor_go.Config.Settings.{zero_config}
use system_monitor_go.Queue.{Queue}
use system_monitor_go.Client.DataSender.{DataSender}
use system_monitor_go.Collectors.Master.{MakeCollectors}
use system_monitor_go.Collectors.Disk.Device.{SysBlock}
use system_monitor_go.Collectors.Network as Network
use system_monitor_go.Collectors.Network.Metrics as NetworkMetrics
use system_monitor_go.Collectors.Disk.Metrics as Disk
use system_monitor_go.Collectors.Service as Service
use system_monitor_go.Collectors.Process as Process
use system_monitor_go.Collectors.Container.Collection as ContainerCollection
use system_monitor_go.Background.{Tick, background, process_background, start}
use system_monitor_go.Background.Survival.{Inputs}

abbrev no_block : SysBlock
no_block = record {
  is_there = λ s. false;
  slaves = λ s. ok [];
  model = λ s. ok [];
  rotational = λ s. ok [];
}

abbrev at_five : {A : Type 0} → A → Tick A
at_five a = record { start = 5; now = 6; after = 7; answers = a }

abbrev no_processes : Process.Answers ℕ
no_processes = record {
  processes = ok [];
  logical_cores = ok (pos 2);
  lookup_id = λ uid. err (codes "unknown");
}

abbrev no_disks : Disk.Answers ℕ
no_disks = record { partitions = ok []; io_counters = ok []; usage = λ s. err (codes "gone") }

abbrev no_services : Service.Answers
no_services = record { system_bus = none; units = ok [] }

abbrev no_interfaces : Network.Answers
no_interfaces = record { interfaces = ok []; io_counters = err (codes "gone") }

abbrev inputs : Inputs ℕ
inputs = record {
  fuel = 3;
  sys_block = no_block;
  cache = [];
  disk_first = at_five no_disks;
  disk_ticks = [];
  process_first = at_five no_processes;
  process_ticks = at_five no_processes ∷ [];
  service_first = at_five no_services;
  service_ticks = [];
  container_first = at_five (ok []);
  container_ticks = at_five (err (codes "no daemon")) ∷ [];
  network_first = at_five no_interfaces;
  network_ticks = at_five no_interfaces ∷ [];
  written = true ∷ [];
}

abbrev numbered : MakeCollectors ℕ
numbered = record {
  system = λ s. 0;
  cpu = λ s. 1;
  memory = λ s. 2;
  disk = λ s. 3;
  container = λ s. 4;
  network = λ s. 5;
  process = λ s. 6;
  service = λ s. 7;
}

abbrev sender : DataSender ℕ
sender = record {
  server_info = record { address = codes "host"; port = pos 8087 };
  user_id = [];
  conn = some 4;
  is_connected = true;
  running = true;
  sender_done = false;
  client_done = false;
  send_loops = 1;
  receivers = 1;
  sent = [];
}

abbrev queue : Queue ℕ
queue = record { items = 8 ∷ []; size = 2 }

-- Settings that are missing are zero, and end the program after the first collection.
zero_setting_panics :
    process_background whole
      (at_five no_processes)
      []
      (Process.new_process_collector ℕ zero_config.collectors.process)
    ≡ panic non_positive_ticker
unfolding process_background Process.new_process_collector background
    system_monitor_go.Base.new_ticker system_monitor_go.Base.seconds
    system_monitor_go.Base.wrap_int64 system_monitor_go.Base.to_int64
zero_setting_panics = refl
