-- ===== src/Collectors/Master.antt =====
-- internal/collectors/collector.go: MasterCollector. A goroutine for each collector merges what that
-- gives into the report under one lock, so a run of `CollectAll` asks each of the collectors and
-- merges their replies in the order in which the goroutines get the lock; the log lines are left out, and with them the list of
-- the errors, which is only printed.
pub mod Order
pub mod Registered
pub mod Ticks
pub mod Kinds
pub mod Fields
use system_monitor_go.Base.{
  ℕ, List, [], ◌∷◌, Text, Time, zero_time, Result, ok, err, Outcome, ret, ◌>>=◌, insert, pos, false,
  codes, map,
}
use system_monitor_go.Base.Floats.{Float64}
use system_monitor_go.Models.Host.{SystemInfo}
use system_monitor_go.Models.Cpu.{CpuMetrics}
use system_monitor_go.Models.Memory.{MemoryMetrics}
use system_monitor_go.Models.Disk.{DiskMetrics}
use system_monitor_go.Models.Network.{NetworkMetrics}
use system_monitor_go.Models.Process.{ProcessInfo}
use system_monitor_go.Models.Container.{DockerContainer}
use system_monitor_go.Models.Service.{ServiceInfo}
use system_monitor_go.Models.Report.{SystemMetrics}
use system_monitor_go.Config.Settings.{
  Config, CollectorSettings, SystemCollectorSettings, CpuCollectorSettings, MemoryCollectorSettings,
  DiskCollectorSettings, DockerCollectorSettings, NetworkCollectorSettings,
  ProcessCollectorSettings, ServiceCollectorSettings,
}
use system_monitor_go.Queue.{Queue, new_queue, push}

-- The `interface{}` of `Collect`: the types that `CollectAll` knows, and any other.
pub data Payload (F : Type 0) : Type 0 where
  system_info : SystemInfo → Payload F
  cpu_metrics : CpuMetrics F → Payload F
  memory_metrics : MemoryMetrics F → Payload F
  disk_metrics : List (DiskMetrics F) → Payload F
  network_metrics : List (NetworkMetrics F) → Payload F
  process_infos : List (ProcessInfo F) → Payload F
  docker_containers : List (DockerContainer F) → Payload F
  service_infos : List (ServiceInfo F) → Payload F
  other_data : Payload F

-- `C` is the type of the collectors, `F` that of `float64`.
pub record MasterCollector {ℓ} (C : Type ℓ) (F : Type 0) : Type ℓ where
  pub collectors : List (Text × C)
  pub metrics_queue : Queue (SystemMetrics F)
  pub user_key : Text
  pub local_key : Text
  pub external_ip : Text

-- The constructors of the collectors.
pub record MakeCollectors {ℓ} (C : Type ℓ) : Type ℓ where
  pub system : SystemCollectorSettings → C
  pub cpu : CpuCollectorSettings → C
  pub memory : MemoryCollectorSettings → C
  pub disk : DiskCollectorSettings → C
  pub container : DockerCollectorSettings → C
  pub network : NetworkCollectorSettings → C
  pub process : ProcessCollectorSettings → C
  pub service : ServiceCollectorSettings → C

-- The zero values that a report starts from.
abbrev pub blank_system : SystemInfo
blank_system = record {
  hostname = [];
  os_name = [];
  platform = [];
  platform_family = [];
  os_version = [];
  os_architecture = [];
  os_kernel_version = [];
  boot_time = pos 0;
  uptime = pos 0;
  total_processes = 0;
  total_threads = 0;
  total_file_descriptors = 0;
}

module _ (fl : Float64) where
  abbrev pub blank_memory : MemoryMetrics fl.F
  blank_memory = record {
    total = pos 0;
    used = pos 0;
    free = pos 0;
    available = pos 0;
    buffers = pos 0;
    cached = pos 0;
    swap_total = pos 0;
    swap_used = pos 0;
    swap_free = pos 0;
    usage_percent = fl.of_nat 0;
    data_rate = 0;
    using_slot_count = 0;
    total_slot_count = 0;
    form_factor = [];
    paged_pool_size = 0;
    non_paged_pool_size = 0;
  }

  abbrev pub blank_cpu : CpuMetrics fl.F
  blank_cpu =
      let z : fl.F = fl.of_nat 0 in
      record {
        architecture = [];
        model = [];
        vendor = [];
        cache_size = pos 0;
        clock_speed = z;
        total_cores = pos 0;
        total_logical_cores = pos 0;
        usage = z;
        temperature = z;
        has_vmx = false;
        has_svm = false;
        has_avx = false;
        has_avx2 = false;
        has_neon = false;
        has_sve = false;
        is_hyperthreading = false;
        l1_cache_size = pos 0;
        l2_cache_size = pos 0;
        l3_cache_size = pos 0;
        base_clock_speed = z;
        max_clock_speed = z;
        min_clock_speed = z;
        cores = [];
      }

  abbrev pub blank_report : Text → Text → Text → Time → SystemMetrics fl.F
  blank_report user_id key external_ip now = record {
    user_id = user_id;
    key = key;
    external_ip = external_ip;
    timestamp = now;
    system = blank_system;
    cpu = blank_cpu;
    memory = blank_memory;
    disk = [];
    network = [];
    processes = [];
    containers = [];
    services = [];
  }

-- The type switch of `CollectAll`.
unfoldable pub merge : {F : Type 0} → SystemMetrics F → Payload F → SystemMetrics F
merge m (system_info v) = record m { system = v }
merge m (cpu_metrics v) = record m { cpu = v }
merge m (memory_metrics v) = record m { memory = v }
merge m (disk_metrics v) = record m { disk = v }
merge m (network_metrics v) = record m { network = v }
merge m (process_infos v) = record m { processes = v }
merge m (docker_containers v) = record m { containers = v }
merge m (service_infos v) = record m { services = v }
merge m other_data = m

-- What the goroutine of one collector does with its reply: an error changes nothing.
unfoldable pub finish :
    {F : Type 0} → SystemMetrics F → Text × Result Text (Payload F) → SystemMetrics F
finish m (name, ok v) = merge m v
finish m (name, err e) = m

unfoldable pub finish_all :
    {F : Type 0} → SystemMetrics F → List (Text × Result Text (Payload F)) → SystemMetrics F
finish_all m [] = m
finish_all m (r ∷ rs) = finish_all (finish m r) rs

-- What one run of `CollectAll` meets: what `Collect` of each collector gives, in the state it has
-- then, and the order in which the goroutines get the lock.
pub record Round {ℓ} (C : Type ℓ) (F : Type 0) : Type ℓ where
  pub collect : C → Result Text (Payload F)
  pub order : List (Text × Result Text (Payload F)) → List (Text × Result Text (Payload F))

-- The replies of all the collectors, in the order in which they come in.
unfoldable pub replies_of {ℓ} :
    {C : Type ℓ} {F : Type 0} → List (Text × C) → Round C F → List (Text × Result Text (Payload F))
replies_of cs rd = rd.order (map (λ c. (c.0, rd.collect c.1)) cs)

-- `CollectAll` over the collectors of the master collector. Its error is always nil.
unfoldable pub collect_all {ℓ} :
    {C : Type ℓ} (fl : Float64)
    → Text
    → Text
    → Text
    → List (Text × C)
    → Time
    → Round C fl.F
    → SystemMetrics fl.F
unfolding replies_of
collect_all fl user_id key external_ip cs now rd =
    finish_all (blank_report fl user_id key external_ip now) (replies_of cs rd)

module _ {ℓ} {C : Type ℓ} where
  unfoldable pub add_collector : {F : Type 0} → Text → C → MasterCollector C F → MasterCollector C F
  add_collector name c mc = record mc { collectors = insert name c mc.collectors }

  -- The eight registrations of `NewMasterCollector`.
  unfoldable pub register :
      {F : Type 0}
      → MakeCollectors C
      → CollectorSettings
      → MasterCollector C F
      → MasterCollector C F
  unfolding add_collector
  register make s mc =
      let a : MasterCollector C _ = add_collector (codes "system") (make.system s.system) mc in
      let b : MasterCollector C _ = add_collector (codes "cpu") (make.cpu s.cpu) a in
      let c : MasterCollector C _ = add_collector (codes "memory") (make.memory s.memory) b in
      let d : MasterCollector C _ = add_collector (codes "disk") (make.disk s.disk) c in
      let e : MasterCollector C _ = add_collector (codes "container") (make.container s.docker) d in
      let f : MasterCollector C _ = add_collector (codes "network") (make.network s.network) e in
      let g : MasterCollector C _ = add_collector (codes "process") (make.process s.process) f in
      add_collector (codes "service") (make.service s.service) g

  unfoldable pub new_master_collector :
      {F : Type 0} → MakeCollectors C → Config → Outcome (MasterCollector C F)
  unfolding register
  new_master_collector make cfg = new_queue (pos 100) >>= λ q. ret (
      register make cfg.collectors (record {
        collectors = [];
        metrics_queue = q;
        user_key = cfg.user_key;
        local_key = cfg.local_key;
        external_ip = cfg.external_ip;
      }))

  -- One tick of the goroutine of `Start`: a report goes into the queue.
  unfoldable pub collect_tick :
      (fl : Float64)
      → Time × Round C fl.F
      → MasterCollector C fl.F
      → Outcome (MasterCollector C fl.F)
  unfolding collect_all push
  collect_tick fl (now, rd) mc =
      push mc.metrics_queue
        (collect_all fl mc.user_key mc.local_key mc.external_ip mc.collectors now rd)
      >>= λ q. ret (record mc { metrics_queue = q })

  -- `Stop` only writes a log line.
  unfoldable pub stop : {F : Type 0} → MasterCollector C F → MasterCollector C F
  stop mc = mc

  unfoldable pub get_data_queue : {F : Type 0} → MasterCollector C F → Queue (SystemMetrics F)
  get_data_queue mc = mc.metrics_queue
