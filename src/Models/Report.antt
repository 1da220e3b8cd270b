-- ===== src/Models/Report.antt =====
-- internal/models/metrics.go: SystemMetrics: one report of all the collectors. `F` is the type of `float64`.
use system_monitor_go.Base.{List, Text, codes, Time, Result, ok, err}
use system_monitor_go.Models.Host.{SystemInfo}
use system_monitor_go.Models.Cpu.{CpuMetrics}
use system_monitor_go.Models.Memory.{MemoryMetrics}
use system_monitor_go.Models.Disk.{DiskMetrics}
use system_monitor_go.Models.Network.{NetworkMetrics}
use system_monitor_go.Models.Process.{ProcessInfo}
use system_monitor_go.Models.Container.{DockerContainer}
use system_monitor_go.Models.Service.{ServiceInfo}

pub record SystemMetrics (F : Type 0) : Type 0 where
  pub user_id : Text
  pub key : Text
  pub external_ip : Text
  pub timestamp : Time
  pub system : SystemInfo
  pub cpu : CpuMetrics F
  pub memory : MemoryMetrics F
  pub disk : List (DiskMetrics F)
  pub network : List (NetworkMetrics F)
  pub processes : List (ProcessInfo F)
  pub containers : List (DockerContainer F)
  pub services : List (ServiceInfo F)

-- `ToJSON`: a value that the JSON library cannot print becomes an empty object.
unfoldable pub to_json {ℓ} : {A : Type ℓ} → (A → Result Text Text) → A → Text
to_json marshal v = elim (marshal v) [ ok bytes ↦ bytes | err e ↦ codes "{}" ]

-- `String` of the report
unfoldable pub to_string :
    {F : Type 0} → (SystemMetrics F → Result Text Text) → SystemMetrics F → Text
unfolding to_json
to_string marshal m = to_json marshal m
