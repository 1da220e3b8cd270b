-- ===== src/Collectors/Process.antt =====
-- internal/collectors/process.go: ProcessCollector. What gopsutil answers about the processes in one
-- collection, and the lookup of user names, are arguments; a collection runs as one step here, and
-- is cut in Steps.
pub mod Report
pub mod Collection
pub mod Usage
pub mod Steps
pub mod Alone
pub mod Overlap
mod Tests
use system_monitor_go.Base.{
  ℕ, ℤ, Bool, true, false, Option, none, some, List, [], ◌∷◌, Text, Time, zero_time, seconds,
  Result, eq_ℤ, if◌then◌else◌,
}
use system_monitor_go.Config.Settings.{ProcessCollectorSettings}
use system_monitor_go.Models.Process.{ProcessInfo}

-- The fields of `MemoryInfoStat` and of `IOCountersStat` that are read.
pub record MemoryInfo : Type 0 where
  pub rss : ℕ
  pub vms : ℕ

pub record IoCounters : Type 0 where
  pub read_bytes : ℕ
  pub write_bytes : ℕ

-- A process with what gopsutil answers about it: of its times the total, of its open files the
-- number, and no memory or counters where the pointer is nil.
pub record Process (F : Type 0) : Type 0 where
  pub pid : ℤ
  pub ppid : Result Text ℤ
  pub name : Result Text Text
  pub cmdline : Result Text Text
  pub uids : Result Text (List ℤ)
  pub status : Result Text (List Text)
  pub times : Result Text F
  pub memory_info : Result Text (Option MemoryInfo)
  pub nice : Result Text ℤ
  pub num_threads : Result Text ℤ
  pub open_files : Result Text ℕ
  pub create_time : Result Text ℤ
  pub io_counters : Result Text (Option IoCounters)

-- The answers of `process.Processes`, of `cpu.Counts(true)` and of `user.LookupId`.
pub record Answers (F : Type 0) : Type 0 where
  pub processes : Result Text (List (Process F))
  pub logical_cores : Result Text ℤ
  pub lookup_id : Text → Result Text Text

-- A map from process numbers in which the entry put last stands first. `prevProcesses` is only
-- written and left out.
pub record ProcessCollector (F : Type 0) : Type 0 where
  pub cached_metrics : List (ProcessInfo F)
  pub cached_time : Time
  pub cache_duration : ℤ
  pub update_frequency : ℤ
  pub background_running : Bool
  pub prev_cpu_times : List (ℤ × F)
  pub prev_time : Time

unfoldable pub lookup_pid : {F : Type 0} → ℤ → List (ℤ × F) → Option F
unfolding eq_ℤ
lookup_pid pid [] = none
lookup_pid pid ((q, t) ∷ m) = if eq_ℤ q pid then some t else lookup_pid pid m

-- `startBackgroundCollection` only marks that its goroutine runs; its rounds are `collect_and_cache`.
unfoldable pub new_process_collector : (F : Type 0) → ProcessCollectorSettings → ProcessCollector F
new_process_collector F cfg = record {
  cached_metrics = [];
  cached_time = zero_time;
  cache_duration = seconds cfg.cache_duration_seconds;
  update_frequency = seconds cfg.update_frequency_seconds;
  background_running = true;
  prev_cpu_times = [];
  prev_time = zero_time;
}
