-- ===== src/Background.antt =====
-- The goroutines with tickers: `startBackgroundCollection` of internal/collectors/disk.go,
-- process.go, service.go, container.go and network.go, `Start` of internal/collectors/collector.go and
-- `sendLoop` of internal/network/client/data_sender.go. A goroutine is run up to a number of ticks,
-- alone; a panic in it ends the program.
pub mod Tickers
pub mod Survival
pub mod Configured
mod Tests
use system_monitor_go.Base.{
  ℕ, ℤ, Bool, true, false, Option, none, some, List, [], ◌∷◌, Text, Time, seconds, Result, Outcome,
  ret, panic, failed_type_assertion, stack_overflow, ◌>>=◌, new_ticker, if◌then◌else◌,
}
use system_monitor_go.Base.Floats.{Float64}
use system_monitor_go.Queue.{Queue}
use system_monitor_go.Collectors.Master.{MasterCollector, Round}
use system_monitor_go.Collectors.Master.Ticks.{run_ticks}
use system_monitor_go.Collectors.Disk.Device.{SysBlock, Cache}
use system_monitor_go.Collectors.Disk.Metrics as Disk
use system_monitor_go.Collectors.Disk.Collection as DiskCollection
use system_monitor_go.Collectors.Service as Service
use system_monitor_go.Collectors.Process as Process
use system_monitor_go.Collectors.Process.Collection as ProcessCollection
use system_monitor_go.Collectors.Container as Container
use system_monitor_go.Collectors.Container.Collection as ContainerCollection
use system_monitor_go.Collectors.Network as Network
use system_monitor_go.Collectors.Network.Metrics as NetworkMetrics
use system_monitor_go.Client.DataSender.{DataSender}
use system_monitor_go.Client.Delivery.{send_ticks}

-- A collection of a goroutine: its times and what it is answered.
pub record Tick (A : Type 0) : Type 0 where
  pub start : Time
  pub now : Time
  pub after : Time
  pub answers : A

module _ {I S : Type 0} where
  -- The collections at the ticks.
  unfoldable pub rounds : (I → S → Outcome S) → List I → S → Outcome S
  rounds round [] s = ret s
  rounds round (i ∷ is) s = round i s >>= λ t. rounds round is t

  -- A collection, then the ticker with one at each of its ticks.
  unfoldable pub background : (I → S → Outcome S) → ℤ → I → List I → S → Outcome S
  unfolding rounds new_ticker
  background round frequency first ticks s =
      round first s >>= λ t. new_ticker frequency >>= λ u. rounds round ticks t

-- `recover`, which takes the panic's value for an error: whether that is one is an argument.
unfoldable pub recovered : {S : Type 0} → Bool → S → Outcome S → Outcome S
recovered is_error s (ret t) = ret t
recovered is_error s (panic p) = if is_error then ret s else panic failed_type_assertion

module _ (fl : Float64) where
  -- A collection with the package's cache; without fuel the recursion of `getDiskInfo` does not end.
  unfoldable pub disk_round :
      ℕ
      → SysBlock
      → Tick (Disk.Answers fl.F)
      → Cache × Disk.DiskCollector fl.F
      → Outcome (Cache × Disk.DiskCollector fl.F)
  unfolding DiskCollection.collect_and_cache
  disk_round n sys t (cache, c) =
      elim (DiskCollection.collect_and_cache fl n sys t.start t.now t.after t.answers cache c) [
        | none ↦ panic stack_overflow
        | some next ↦ ret next
      ]

  unfoldable pub disk_background :
      ℕ
      → SysBlock
      → Tick (Disk.Answers fl.F)
      → List (Tick (Disk.Answers fl.F))
      → Cache
      → Disk.DiskCollector fl.F
      → Outcome (Cache × Disk.DiskCollector fl.F)
  unfolding background disk_round
  disk_background n sys first ticks cache c =
      background (disk_round n sys) c.update_frequency first ticks (cache, c)

  unfoldable pub process_background :
      Tick (Process.Answers fl.F)
      → List (Tick (Process.Answers fl.F))
      → Process.ProcessCollector fl.F
      → Outcome (Process.ProcessCollector fl.F)
  unfolding background ProcessCollection.collect_and_cache
  process_background first ticks c =
      background (λ t s. ret (ProcessCollection.collect_and_cache fl t.now t.after t.answers s))
        c.update_frequency first ticks c

  unfoldable pub service_background :
      Tick Service.Answers
      → List (Tick Service.Answers)
      → Service.ServiceCollector fl.F
      → Outcome (Service.ServiceCollector fl.F)
  unfolding background Service.collect_and_cache
  service_background first ticks c =
      background (λ t s. ret (Service.collect_and_cache fl t.after t.answers s)) c.update_frequency
        first ticks c

  -- Without a client there is no goroutine.
  unfoldable pub container_background :
      Tick (Result Text (List Container.Listed))
      → List (Tick (Result Text (List Container.Listed)))
      → Container.ContainerCollector fl.F
      → Outcome (Container.ContainerCollector fl.F)
  unfolding background ContainerCollection.collect_and_cache
  container_background first ticks c =
      if c.has_client
      then background (λ t s. ContainerCollection.collect_and_cache fl t.after t.answers s)
          c.update_frequency first ticks c
      else ret c

  -- The first round has run before the goroutine starts, and the goroutine recovers.
  unfoldable pub network_background :
      Bool
      → List (Tick Network.Answers)
      → Network.NetworkCollector fl.F
      → Outcome (Network.NetworkCollector fl.F)
  unfolding recovered rounds new_ticker NetworkMetrics.collect_and_cache
  network_background is_error ticks c = recovered is_error c (
      new_ticker c.update_frequency >>= λ u.
      rounds (λ t s. ret (NetworkMetrics.collect_and_cache fl t.now t.after t.answers s)) ticks c)

  -- `Start` of the master collector
  unfoldable pub start {ℓ} :
      {C : Type ℓ}
      → ℤ
      → List (Time × Round C fl.F)
      → MasterCollector C fl.F
      → Outcome (MasterCollector C fl.F)
  unfolding new_ticker run_ticks
  start interval ticks mc = new_ticker (seconds interval) >>= λ u. run_ticks fl ticks mc

-- `sendLoop`; the flags are what the network says to the writes.
unfoldable pub send_loop :
    {M D : Type 0}
    → (M → Option D)
    → ℤ
    → List Bool
    → DataSender D
    → Queue M
    → Outcome (DataSender D × Queue M)
unfolding new_ticker send_ticks
send_loop marshal interval flags ds q =
    new_ticker (seconds interval) >>= λ u. send_ticks marshal flags ds q
