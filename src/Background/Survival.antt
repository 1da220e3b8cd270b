-- ===== src/Background/Survival.antt =====
-- The goroutines with tickers: with which settings they go on.
use system_monitor_go.Base.{
  sym, arith, ◌<◌, failed_type_assertion, ℕ, ℤ, ◌≡◌, refl, ◌↔◌, ◌⊎◌, inl, inr, Bool, true, false,
  List, ◌∷◌, Option, none, some, Text, Time, Result, Returns-ret, seconds, Outcome, ret, panic,
  ◌>>=◌, Finishes, panic_not_Finishes, new_ticker,
}
use system_monitor_go.Base.Floats.{Float64}
use system_monitor_go.Config.Settings.{
  Config, DiskCollectorSettings, ProcessCollectorSettings, ServiceCollectorSettings,
  DockerCollectorSettings, NetworkCollectorSettings,
}
use mathlib.Core.Path.{subst}
use system_monitor_go.Queue.{Queue}
use system_monitor_go.Collectors.Master.{MakeCollectors, Round, new_master_collector}
use system_monitor_go.Collectors.Master.Ticks.{run_ticks, run_ticks-window}
use system_monitor_go.Collectors.Disk.Device.{SysBlock, Cache, first_slave, block_device}
use system_monitor_go.Collectors.Disk.Lookup.{Sound}
use system_monitor_go.Collectors.Disk.Ends.{collect_and_cache-Sound}
use system_monitor_go.Collectors.Disk.Metrics as Disk
use system_monitor_go.Collectors.Service as Service
use system_monitor_go.Collectors.Process as Process
use system_monitor_go.Collectors.Process.Collection as ProcessCollection
use system_monitor_go.Collectors.Container as Container
use system_monitor_go.Collectors.Container.Collection as ContainerCollection
use system_monitor_go.Collectors.Network as Network
use system_monitor_go.Collectors.Network.Metrics as NetworkMetrics
use system_monitor_go.Client.DataSender.{DataSender}
use system_monitor_go.Client.Delivery.{HasConn, send_ticks, send_ticks-delivered}
use system_monitor_go.Background.{
  Tick, rounds, background, recovered, disk_round, disk_background, process_background,
  service_background, container_background, network_background, start, send_loop,
}
use system_monitor_go.Background.Tickers.{
  Positive, InRange, ticker_between, rounds-Finishes, background-Finishes, background_keep,
}

-- What the goroutines are answered.
pub record Inputs (F : Type 0) : Type 0 where
  pub fuel : ℕ
  pub sys_block : SysBlock
  pub cache : Cache
  pub disk_first : Tick (Disk.Answers F)
  pub disk_ticks : List (Tick (Disk.Answers F))
  pub process_first : Tick (Process.Answers F)
  pub process_ticks : List (Tick (Process.Answers F))
  pub service_first : Tick Service.Answers
  pub service_ticks : List (Tick Service.Answers)
  pub container_first : Tick (Result Text (List Container.Listed))
  pub container_ticks : List (Tick (Result Text (List Container.Listed)))
  pub network_first : Tick Network.Answers
  pub network_ticks : List (Tick Network.Answers)
  pub written : List Bool

module _ (fl : Float64) where
  pub disk-Finishes :
      (i : Inputs fl.F) (cfg : DiskCollectorSettings) (rank : Text → ℕ)
      → ((c s : Text)
          → first_slave i.sys_block (block_device i.sys_block c) ≡ some s
          → rank s < rank c)
      → ((c : Text) → rank c < i.fuel)
      → Sound i.sys_block i.cache
      → InRange cfg.update_frequency_seconds
      → Finishes (
          disk_background fl i.fuel i.sys_block i.disk_first i.disk_ticks i.cache
            (Disk.new_disk_collector fl.F cfg))
        ↔ Positive cfg.update_frequency_seconds
  unfolding disk_background Disk.new_disk_collector disk_round
  disk-Finishes i cfg rank descends fuel cached h =
      background_keep (disk_round fl i.fuel i.sys_block) (λ s. Sound i.sys_block s.0)
        (λ t (cache, c) k.
          let (next, e, l) =
            collect_and_cache-Sound fl i.sys_block rank i.fuel descends fuel t.start t.now t.after
              t.answers cache c k in
          (next, simp (e, disk_round), l))
        cfg.update_frequency_seconds i.disk_first i.disk_ticks
        (i.cache, Disk.new_disk_collector fl.F cfg) h cached

  pub process-Finishes :
      (i : Inputs fl.F) (cfg : ProcessCollectorSettings)
      → InRange cfg.update_frequency_seconds
      → Finishes (
          process_background fl i.process_first i.process_ticks
            (Process.new_process_collector fl.F cfg))
        ↔ Positive cfg.update_frequency_seconds
  unfolding process_background Process.new_process_collector
  process-Finishes i cfg h =
      background-Finishes
        (λ (t : Tick (Process.Answers fl.F)) s.
          ProcessCollection.collect_and_cache fl t.now t.after t.answers s)
        cfg.update_frequency_seconds i.process_first i.process_ticks
        (Process.new_process_collector fl.F cfg) h

  pub service-Finishes :
      (i : Inputs fl.F) (cfg : ServiceCollectorSettings)
      → InRange cfg.update_frequency_seconds
      → Finishes (
          service_background fl i.service_first i.service_ticks
            (Service.new_service_collector fl.F cfg))
        ↔ Positive cfg.update_frequency_seconds
  unfolding service_background Service.new_service_collector
  service-Finishes i cfg h =
      background-Finishes
        (λ (t : Tick Service.Answers) s. Service.collect_and_cache fl t.after t.answers s)
        cfg.update_frequency_seconds i.service_first i.service_ticks
        (Service.new_service_collector fl.F cfg) h

  -- The collections of the container goroutine without its ticker
  abbrev pub container_rounds :
      Inputs fl.F → DockerCollectorSettings → Outcome (Container.ContainerCollector fl.F)
  container_rounds i cfg =
      rounds (λ t s. ContainerCollection.collect_and_cache fl t.after t.answers s)
        (i.container_first ∷ i.container_ticks)
        (ContainerCollection.new_container_collector fl.F none cfg)

  pub container-Finishes :
      (i : Inputs fl.F) (cfg : DockerCollectorSettings)
      → InRange cfg.update_frequency_seconds
      → Finishes (container_rounds i cfg)
      → Finishes (
          container_background fl i.container_first i.container_ticks
            (ContainerCollection.new_container_collector fl.F none cfg))
        ↔ Positive cfg.update_frequency_seconds
  unfolding container_background ContainerCollection.new_container_collector background rounds
  container-Finishes i cfg h k = ticker_between _ _ _ h k

  pub start-Finishes {ℓ} :
      {C : Type ℓ} (make : MakeCollectors C) (cfg : Config) (ts : List (Time × Round C fl.F))
      → InRange cfg.collection_interval
      → Finishes (new_master_collector make cfg >>= λ mc. start fl cfg.collection_interval ts mc)
        ↔ Positive cfg.collection_interval
  unfolding start
  start-Finishes make cfg ts h =
      ticker_between cfg.collection_interval (new_master_collector make cfg)
        (λ mc. run_ticks fl ts mc) h
        (let (mc, e, r) = Returns-ret _ _ (run_ticks-window fl make cfg ts) in (mc, e))

  recovered-Finishes :
      {S : Type 0} (b : Bool) (s : S) (m : Outcome S)
      → Finishes (recovered b s m) ↔ (b ≡ true) ⊎ Finishes m
  unfolding recovered
  recovered-Finishes b s (ret t) = (λ f. inr (t, refl), λ f. (t, refl))
  recovered-Finishes true s (panic p) = (λ f. inl refl, λ f. (s, refl))
  recovered-Finishes false s (panic p) = (
    λ f. panic_not_Finishes failed_type_assertion refl f,
    λ f. elim f [ inl e ↦ cc | inr k ↦ panic_not_Finishes p refl k ],
  )

  recovers-Finishes :
      (b : Bool) (ticks : List (Tick Network.Answers)) (c : Network.NetworkCollector fl.F) (n : ℤ)
      → InRange n
      → c.update_frequency ≡ seconds n
      → Finishes (network_background fl b ticks c) ↔ (b ≡ true) ⊎ Positive n
  unfolding network_background
  recovers-Finishes b ticks c n h e =
      let run : Network.NetworkCollector fl.F → Outcome (Network.NetworkCollector fl.F) = λ s.
        rounds
          (λ (t : Tick Network.Answers) s.
            ret (NetworkMetrics.collect_and_cache fl t.now t.after t.answers s))
          ticks s in
      let go = ticker_between n (ret c) run h (
        rounds-Finishes
          (λ (t : Tick Network.Answers) s.
            NetworkMetrics.collect_and_cache fl t.now t.after t.answers s)
          ticks c) in
      let both = recovered-Finishes b c (new_ticker (seconds n) >>= λ u. run c) in
      subst (λ f. Finishes (recovered b c (new_ticker f >>= λ u. run c)) ↔ (b ≡ true) ⊎ Positive n)
        (sym e)
        (
          λ f. elim (both.0 f) [ inl e ↦ inl e | inr k ↦ inr (go.0 k) ],
          λ g. both.1 (elim g [ inl e ↦ inl e | inr k ↦ inr (go.1 k) ]),
        )

  stored-frequency :
      (now after : Time) (a : Network.Answers) (c : Network.NetworkCollector fl.F)
      → (NetworkMetrics.collect_and_cache fl now after a c).update_frequency ≡ c.update_frequency
  unfolding NetworkMetrics.collect_and_cache NetworkMetrics.collect_network_metrics
      NetworkMetrics.store
  stored-frequency now after a c = ground arith

  -- The goroutine of the network collector goes on exactly if the value that `NewTicker` panics with
  -- is an error, which it recovers from, or its setting is positive.
  pub network_background-Finishes :
      (b : Bool) (i : Inputs fl.F) (cfg : NetworkCollectorSettings)
      → InRange cfg.update_frequency_seconds
      → Finishes (
          network_background fl b i.network_ticks (
            NetworkMetrics.new_network_collector fl cfg i.network_first.now i.network_first.after
              i.network_first.answers))
        ↔ (b ≡ true) ⊎ Positive cfg.update_frequency_seconds
  unfolding NetworkMetrics.new_network_collector Network.blank_collector
  network_background-Finishes b i cfg h =
      recovers-Finishes b i.network_ticks _ cfg.update_frequency_seconds h (
        stored-frequency i.network_first.now i.network_first.after i.network_first.answers
          (Network.blank_collector fl.F cfg))

  pub send_loop-Finishes :
      {M D : Type 0} (marshal : M → Option D) (n : ℤ) (flags : List Bool) (ds : DataSender D)
      (q : Queue M)
      → InRange n
      → HasConn marshal ds
      → Finishes (send_loop marshal n flags ds q) ↔ Positive n
  unfolding send_loop
  send_loop-Finishes marshal n flags ds q h k =
      ticker_between n (ret ds) (λ s. send_ticks marshal flags s q) h
        (_, send_ticks-delivered marshal flags ds q.size q.items k)
