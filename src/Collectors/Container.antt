-- ===== src/Collectors/Container.antt =====
-- internal/collectors/container.go: ContainerCollector. What the Docker client answers is an argument. A
-- nil slice or map is an empty list, which the code tells apart only in JSON; `none` is a nil map
-- where it does. A Go map is listed in the order in which the code happens to range over it.
pub mod Usage
pub mod Convert
pub mod Collection
pub mod Totals
pub mod Env
pub mod Parts
pub mod Gather
pub mod Bag
mod Tests
use system_monitor_go.Base.{ℕ, Bool, List, Option, Text, Time, Result, ℤ}
use system_monitor_go.Models.Container.{DockerContainer}

-- An interface of the statistics, its received and its sent bytes.
pub record InterfaceStats : Type 0 where
  pub rx_bytes : ℕ
  pub tx_bytes : ℕ

pub record BlockStat : Type 0 where
  pub op : Text
  pub value : ℕ

-- The fields of `DockerStats`; of the times of the processors only the number is read.
pub record DockerStats : Type 0 where
  pub pids_current : ℕ
  pub total_usage : ℕ
  pub percpu_usage : List ℕ
  pub system_cpu_usage : ℕ
  pub online_cpus : ℕ
  pub pre_total_usage : ℕ
  pub pre_system_cpu_usage : ℕ
  pub memory_usage : ℕ
  pub memory_limit : ℕ
  pub io_service_bytes : List BlockStat
  pub networks : List (Text × InterfaceStats)

-- `types.Health`, with the outputs of its log, whose entries are pointers.
pub record HealthState : Type 0 where
  pub status : Text
  pub failing_streak : ℤ
  pub log : List (Option Text)

-- A key of `nat.PortMap`, by what its `Port` and its `Proto` give, and the host ports bound to it.
pub record PortEntry : Type 0 where
  pub port : Text
  pub proto : Text
  pub bindings : List Text

pub record Endpoint : Type 0 where
  pub ip_address : Text
  pub mac_address : Text

pub record MountPoint : Type 0 where
  pub source : Text
  pub destination : Text
  pub mode : Text
  pub type : Text

-- `types.ContainerState`, `types.ContainerJSONBase`, `container.Config` and `types.NetworkSettings`, with
-- the fields that are read; what the code reaches through a pointer is `none` where that is nil.
pub record ContainerState : Type 0 where
  pub health : Option HealthState

pub record DetailsBase : Type 0 where
  pub created : Text
  pub restart_count : ℤ
  pub state : Option ContainerState

pub record ContainerConfig : Type 0 where
  pub labels : List (Text × Text)
  pub env : List Text

pub record NetworkSettings : Type 0 where
  pub ports : List PortEntry
  pub networks : List (Text × Option Endpoint)

-- The reply of `ContainerInspect`.
pub record Details : Type 0 where
  pub base : Option DetailsBase
  pub mounts : List MountPoint
  pub config : Option ContainerConfig
  pub network_settings : Option NetworkSettings

-- A container of `ContainerList`, and how the calls about it go: `ContainerInspect`, the error of
-- `ContainerStats`, that of reading its body, and what the JSON library makes of that.
pub record Listed : Type 0 where
  pub id : Text
  pub names : List Text
  pub image : Text
  pub status : Text
  pub inspect : Result Text Details
  pub stats_error : Option Text
  pub body_error : Option Text
  pub stats : Result Text DockerStats

-- `has_client` tells whether `dockerClient` is not nil.
pub record ContainerCollector (F : Type 0) : Type 0 where
  pub has_client : Bool
  pub cached_metrics : List (DockerContainer F)
  pub cached_time : Time
  pub cache_duration : ℤ
  pub update_frequency : ℤ
  pub background_running : Bool
