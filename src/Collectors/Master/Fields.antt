-- ===== src/Collectors/Master/Fields.antt =====
-- internal/collectors/collector.go: the report of the eight collectors that are registered.
use system_monitor_go.Base.{
  ap, insert, text_eq, ℕ, ◌≡◌, refl, sym, ◌∙◌, arith, List, [], ◌∷◌, map, Text, codes, Time, Result,
  ok, err, answered, Returns,
}
use system_monitor_go.Base.Floats.{Float64}
use system_monitor_go.Models.Host.{SystemInfo}
use system_monitor_go.Models.Cpu.{CpuMetrics}
use system_monitor_go.Models.Memory.{MemoryMetrics}
use system_monitor_go.Models.Disk.{DiskMetrics}
use system_monitor_go.Models.Network.{NetworkMetrics}
use system_monitor_go.Models.Process.{ProcessInfo}
use system_monitor_go.Models.Container.{DockerContainer}
use system_monitor_go.Models.Service.{ServiceInfo}
use system_monitor_go.Models.Report.{SystemMetrics}
use system_monitor_go.Config.Settings.{Config, CollectorSettings}
use system_monitor_go.Queue.{new_queue}
use system_monitor_go.Collectors.Master.{
  MasterCollector, MakeCollectors, Payload, system_info, cpu_metrics, memory_metrics, disk_metrics,
  network_metrics, process_infos, docker_containers, service_infos, merge, finish, finish_all,
  blank_system, blank_memory, blank_cpu, blank_report, collect_all, new_master_collector, register,
  add_collector, Round, replies_of,
}
use system_monitor_go.Collectors.Master.Order.{kind, Apart, finish_all-perm}
use system_monitor_go.Collectors.Master.Registered.{registered}
use system_monitor_go.Collectors.Master.Kinds.{HasKind, HasKinds, Pairwise-kinds}
use mathlib.Core.List.{Permᴰ, Pairwise}

-- What `Collect` of the eight collectors gives.
pub record Results (F : Type 0) : Type 0 where
  pub system : Result Text SystemInfo
  pub cpu : Result Text (CpuMetrics F)
  pub memory : Result Text (MemoryMetrics F)
  pub disk : Result Text (List (DiskMetrics F))
  pub container : Result Text (List (DockerContainer F))
  pub network : Result Text (List (NetworkMetrics F))
  pub process : Result Text (List (ProcessInfo F))
  pub service : Result Text (List (ServiceInfo F))

module _ {F : Type 0} where
  unfoldable pub as_payload :
      {A : Type 0} → (A → Payload F) → Result Text A → Result Text (Payload F)
  as_payload f (ok a) = ok (f a)
  as_payload f (err e) = err e

  -- The replies in the order of the registrations
  unfoldable pub replies : Results F → List (Text × Result Text (Payload F))
  unfolding as_payload
  replies r =
      (codes "system", as_payload (λ v. system_info v) r.system)
      ∷ (codes "cpu", as_payload (λ v. cpu_metrics v) r.cpu)
      ∷ (codes "memory", as_payload (λ v. memory_metrics v) r.memory)
      ∷ (codes "disk", as_payload (λ v. disk_metrics v) r.disk)
      ∷ (codes "container", as_payload (λ v. docker_containers v) r.container)
      ∷ (codes "network", as_payload (λ v. network_metrics v) r.network)
      ∷ (codes "process", as_payload (λ v. process_infos v) r.process)
      ∷ (codes "service", as_payload (λ v. service_infos v) r.service)
      ∷ []

  kinds_of :
      {A : Type 0} (f : A → Payload F) (i : ℕ) (name : Text) (r : Result Text A)
      → ((a : A) → kind (f a) ≡ i)
      → HasKind i (name, as_payload f r)
  unfolding HasKind as_payload
  kinds_of f i name (ok a) h = h a
  kinds_of f i name (err e) h = tt

  replies-Pairwise : (r : Results F) → Pairwise Apart (replies r)
  unfolding replies HasKinds kind
  replies-Pairwise r =
      Pairwise-kinds (0 ∷ 1 ∷ 2 ∷ 3 ∷ 6 ∷ 4 ∷ 5 ∷ 7 ∷ []) (replies r)
        (
          kinds_of (λ v. system_info v) 0 (codes "system") r.system (λ a. refl),
          (
            kinds_of (λ v. cpu_metrics v) 1 (codes "cpu") r.cpu (λ a. refl),
            (
              kinds_of (λ v. memory_metrics v) 2 (codes "memory") r.memory (λ a. refl),
              (
                kinds_of (λ v. disk_metrics v) 3 (codes "disk") r.disk (λ a. refl),
                (
                  kinds_of (λ v. docker_containers v) 6 (codes "container") r.container (λ a. refl),
                  (
                    kinds_of (λ v. network_metrics v) 4 (codes "network") r.network (λ a. refl),
                    (
                      kinds_of (λ v. process_infos v) 5 (codes "process") r.process (λ a. refl),
                      (
                        kinds_of (λ v. service_infos v) 7 (codes "service") r.service (λ a. refl),
                        tt,
                      ),
                    ),
                  ),
                ),
              ),
            ),
          ),
        )
        (omega arith)

  -- A report with what the collectors give, where they give something.
  unfoldable pub filled : SystemMetrics F → Results F → SystemMetrics F
  unfolding answered
  filled m r = record m {
    system = answered m.system r.system;
    cpu = answered m.cpu r.cpu;
    memory = answered m.memory r.memory;
    disk = answered m.disk r.disk;
    network = answered m.network r.network;
    processes = answered m.processes r.process;
    containers = answered m.containers r.container;
    services = answered m.services r.service;
  }

  finish_result :
      {A : Type 0} (f : A → Payload F) (get : SystemMetrics F → A)
      (put : SystemMetrics F → A → SystemMetrics F) (m : SystemMetrics F) (name : Text)
      (r : Result Text A)
      → ((a : A) → merge m (f a) ≡ put m a)
      → put m (get m) ≡ m
      → finish m (name, as_payload f r) ≡ put m (answered (get m) r)
  unfolding finish as_payload answered
  finish_result f get put m name (ok a) h k = h a
  finish_result f get put m name (err e) h k = sym k

  in_system :
      (m : SystemMetrics F) (name : Text) (r : Result Text SystemInfo)
      → finish m (name, as_payload (λ v. system_info v) r)
        ≡ record m { system = answered m.system r }
  unfolding merge
  in_system m name r =
      finish_result (λ v. system_info v) (λ s. s.system) (λ s v. record s { system = v }) m name r
        (λ a. refl) refl

  in_cpu :
      (m : SystemMetrics F) (name : Text) (r : Result Text (CpuMetrics F))
      → finish m (name, as_payload (λ v. cpu_metrics v) r) ≡ record m { cpu = answered m.cpu r }
  unfolding merge
  in_cpu m name r =
      finish_result (λ v. cpu_metrics v) (λ s. s.cpu) (λ s v. record s { cpu = v }) m name r
        (λ a. refl) refl

  in_memory :
      (m : SystemMetrics F) (name : Text) (r : Result Text (MemoryMetrics F))
      → finish m (name, as_payload (λ v. memory_metrics v) r)
        ≡ record m { memory = answered m.memory r }
  unfolding merge
  in_memory m name r =
      finish_result (λ v. memory_metrics v) (λ s. s.memory) (λ s v. record s { memory = v }) m name
        r (λ a. refl) refl

  in_disk :
      (m : SystemMetrics F) (name : Text) (r : Result Text (List (DiskMetrics F)))
      → finish m (name, as_payload (λ v. disk_metrics v) r) ≡ record m { disk = answered m.disk r }
  unfolding merge
  in_disk m name r =
      finish_result (λ v. disk_metrics v) (λ s. s.disk) (λ s v. record s { disk = v }) m name r
        (λ a. refl) refl

  in_container :
      (m : SystemMetrics F) (name : Text) (r : Result Text (List (DockerContainer F)))
      → finish m (name, as_payload (λ v. docker_containers v) r)
        ≡ record m { containers = answered m.containers r }
  unfolding merge
  in_container m name r =
      finish_result (λ v. docker_containers v) (λ s. s.containers)
        (λ s v. record s { containers = v }) m name r (λ a. refl) refl

  in_network :
      (m : SystemMetrics F) (name : Text) (r : Result Text (List (NetworkMetrics F)))
      → finish m (name, as_payload (λ v. network_metrics v) r)
        ≡ record m { network = answered m.network r }
  unfolding merge
  in_network m name r =
      finish_result (λ v. network_metrics v) (λ s. s.network) (λ s v. record s { network = v }) m
        name r (λ a. refl) refl

  in_process :
      (m : SystemMetrics F) (name : Text) (r : Result Text (List (ProcessInfo F)))
      → finish m (name, as_payload (λ v. process_infos v) r)
        ≡ record m { processes = answered m.processes r }
  unfolding merge
  in_process m name r =
      finish_result (λ v. process_infos v) (λ s. s.processes) (λ s v. record s { processes = v }) m
        name r (λ a. refl) refl

  in_service :
      (m : SystemMetrics F) (name : Text) (r : Result Text (List (ServiceInfo F)))
      → finish m (name, as_payload (λ v. service_infos v) r)
        ≡ record m { services = answered m.services r }
  unfolding merge
  in_service m name r =
      finish_result (λ v. service_infos v) (λ s. s.services) (λ s v. record s { services = v }) m
        name r (λ a. refl) refl

  finish_all-replies : (m : SystemMetrics F) (r : Results F) → finish_all m (replies r) ≡ filled m r
  unfolding finish_all replies filled
  finish_all-replies m r =
      rw (in_system, in_cpu, in_memory, in_disk, in_container, in_network, in_process, in_service)
        refl

-- What the collectors of these settings give in a round, each of its own type.
pub record Gives {ℓ} {C : Type ℓ} {F : Type 0} (make : MakeCollectors C) (s : CollectorSettings)
    (collect : C → Result Text (Payload F)) (r : Results F) : Type 0 where
  pub system : collect (make.system s.system) ≡ as_payload (λ v. system_info v) r.system
  pub cpu : collect (make.cpu s.cpu) ≡ as_payload (λ v. cpu_metrics v) r.cpu
  pub memory : collect (make.memory s.memory) ≡ as_payload (λ v. memory_metrics v) r.memory
  pub disk : collect (make.disk s.disk) ≡ as_payload (λ v. disk_metrics v) r.disk
  pub container :
      collect (make.container s.docker) ≡ as_payload (λ v. docker_containers v) r.container
  pub network : collect (make.network s.network) ≡ as_payload (λ v. network_metrics v) r.network
  pub process : collect (make.process s.process) ≡ as_payload (λ v. process_infos v) r.process
  pub service : collect (make.service s.service) ≡ as_payload (λ v. service_infos v) r.service

module _ {ℓ} {C : Type ℓ} (fl : Float64) (make : MakeCollectors C) where
  asked-replies :
      (s : CollectorSettings) (collect : C → Result Text (Payload fl.F)) (r : Results fl.F)
      → Gives make s collect r
      → map (λ c. (c.0, collect c.1)) (registered make s) ≡ replies r
  unfolding replies
  asked-replies s collect r g =
      rw (g.system, g.cpu, g.memory, g.disk, g.container, g.network, g.process, g.service) refl

  pub collect_all-registered :
      (cfg : Config) (now : Time) (rd : Round C fl.F) (r : Results fl.F)
      → Gives make cfg.collectors rd.collect r
      → Permᴰ (replies r) (rd.order (replies r))
      → collect_all fl cfg.user_key cfg.local_key cfg.external_ip
          (registered make cfg.collectors)
          now
          rd
        ≡ filled (blank_report fl cfg.user_key cfg.local_key cfg.external_ip now) r
  unfolding collect_all replies_of
  collect_all-registered cfg now rd r g d =
      let blank : SystemMetrics fl.F =
        blank_report fl cfg.user_key cfg.local_key cfg.external_ip now in
      ap (λ rs. finish_all blank (rd.order rs)) (asked-replies cfg.collectors rd.collect r g)
      ∙ sym (finish_all-perm blank d (replies-Pairwise r))
      ∙ finish_all-replies blank r

-- A new master collector has exactly the eight collectors, each under its name, made from its own
-- settings, in this order. If `Collect` of each gives data of its own type or an error, then in
-- whatever order the replies come in, the report of `CollectAll` over these collectors is made out
-- for the configuration's user, key and address and has in each field what the collector registered
-- for that field gave, or the zero value where that was an error.
pub collect_all-filled :
    {C : Type 0} (fl : Float64) (make : MakeCollectors C) (cfg : Config) (now : Time)
    (rd : Round C fl.F) (r : Results fl.F)
    → Gives make cfg.collectors rd.collect r
    → Permᴰ (replies r) (rd.order (replies r))
    → Returns {A = MasterCollector C fl.F}
        (λ mc.
          (mc.collectors ≡ registered make cfg.collectors)
          × (collect_all fl mc.user_key mc.local_key mc.external_ip mc.collectors now rd ≡ record {
            user_id = cfg.user_key;
            key = cfg.local_key;
            external_ip = cfg.external_ip;
            timestamp = now;
            system = answered blank_system r.system;
            cpu = answered (blank_cpu fl) r.cpu;
            memory = answered (blank_memory fl) r.memory;
            disk = answered [] r.disk;
            network = answered [] r.network;
            processes = answered [] r.process;
            containers = answered [] r.container;
            services = answered [] r.service;
          }))
        (new_master_collector make cfg)
unfolding new_master_collector new_queue register add_collector insert text_eq filled
collect_all-filled fl make cfg now rd r g d =
    (refl, collect_all-registered fl make cfg now rd r g d)
