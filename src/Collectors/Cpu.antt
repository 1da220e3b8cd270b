-- ===== src/Collectors/Cpu.antt =====
-- internal/collectors/cpu.go: CPUCollector. What gopsutil and `lscpu` answer is an argument.
pub mod Details
pub mod Sensors
pub mod Collection
pub mod Size
pub mod Cores
pub mod Safety
mod Tests
use system_monitor_go.Base.{List, Text, Time, Result, ℤ, Bool}

-- The fields of `cpu.InfoStat` that are read.
pub record CpuInfo (F : Type 0) : Type 0 where
  pub model_name : Text
  pub vendor_id : Text
  pub cache_size : ℤ
  pub mhz : F
  pub flags : List Text

pub record Sensor (F : Type 0) : Type 0 where
  pub sensor_key : Text
  pub temperature : F

-- What one call of `Collect` is told; a usage is sampled for a duration.
pub record Answers (F : Type 0) : Type 0 where
  pub info : Result Text (List (CpuInfo F))
  pub logical_counts : Result Text ℤ
  pub physical_counts : Result Text ℤ
  pub total_percent : ℤ → Result Text (List F)
  pub core_percents : ℤ → Result Text (List F)
  pub temperatures : Result Text (List (Sensor F))
  pub lscpu : Result Text Text

pub record CpuCollector (F : Type 0) : Type 0 where
  pub cached_percent : List F
  pub cached_percents : List F
  pub cached_time : Time
  pub cache_duration : ℤ
  pub sampling_duration : ℤ
  pub update_frequency : ℤ
  pub direct_sampling : ℤ
  pub background_running : Bool
