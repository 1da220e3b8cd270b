-- ===== src/Collectors/Disk/Metrics.antt =====
-- internal/collectors/disk.go: DiskCollector. What gopsutil answers in one collection is an argument,
-- and a collection runs as one step; the package's `blockDeviceCache` is passed on beside the
-- collector. Fuel is for the way over the slaves; `none` is a collection that runs out of it.
use system_monitor_go.Base.{
  ℕ, Bool, true, false, ◌||◌, Option, none, some, List, [], ◌∷◌, Text, codes, text_eq, any, map,
  Time, zero_time, is_zero, sub_time, seconds, Result, ℤ, pos, to_int64, sub_u64, if◌then◌else◌,
}
use system_monitor_go.Base.Floats.{Float64, float_seconds}
use system_monitor_go.Config.Settings.{DiskCollectorSettings}
use system_monitor_go.Models.Disk.{DiskMetrics, DiskIoStats}

abbrev pub ignored_fs_types : List Text
ignored_fs_types = map codes (
    "autofs" ∷ "binfmt_misc" ∷ "bpf" ∷ "cgroup" ∷ "cgroup2" ∷ "configfs" ∷ "debugfs" ∷ "devpts"
    ∷ "devtmpfs" ∷ "fusectl" ∷ "hugetlbfs" ∷ "mqueue" ∷ "nsfs" ∷ "overlay" ∷ "proc" ∷ "pstore"
    ∷ "securityfs" ∷ "squashfs" ∷ "sysfs" ∷ "tracefs" ∷ "tmpfs" ∷ [])

unfoldable pub is_ignored : Text → Bool
unfolding text_eq
is_ignored fstype = any (λ t. text_eq t fstype) ignored_fs_types

-- The fields of `disk.IOCountersStat`, `disk.PartitionStat` and `disk.UsageStat` that are read.
pub record IoCounters : Type 0 where
  pub read_bytes : ℕ
  pub write_bytes : ℕ
  pub read_count : ℕ
  pub write_count : ℕ
  pub read_time : ℕ
  pub write_time : ℕ
  pub iops_in_progress : ℕ
  pub io_time : ℕ

pub record Partition : Type 0 where
  pub device : Text
  pub mountpoint : Text
  pub fstype : Text

pub record Usage (F : Type 0) : Type 0 where
  pub total : ℕ
  pub used : ℕ
  pub free : ℕ
  pub used_percent : F
  pub inodes_total : ℕ
  pub inodes_used : ℕ
  pub inodes_free : ℕ

pub record Answers (F : Type 0) : Type 0 where
  pub partitions : Result Text (List Partition)
  pub io_counters : Result Text (List (Text × IoCounters))
  pub usage : Text → Result Text (Usage F)

pub record DiskCollector (F : Type 0) : Type 0 where
  pub cached_metrics : List (DiskMetrics F)
  pub cached_time : Time
  pub cache_duration : ℤ
  pub update_frequency : ℤ
  pub background_running : Bool
  pub prev_io_counters : List (Text × IoCounters)
  pub prev_time : Time

-- `startBackgroundCollection` only marks that its goroutine runs; its rounds are `collect_and_cache`.
unfoldable pub new_disk_collector : (F : Type 0) → DiskCollectorSettings → DiskCollector F
new_disk_collector F cfg = record {
  cached_metrics = [];
  cached_time = zero_time;
  cache_duration = seconds cfg.cache_duration_seconds;
  update_frequency = seconds cfg.update_frequency_seconds;
  background_running = true;
  prev_io_counters = [];
  prev_time = zero_time;
}

module _ (fl : Float64) where
  -- The seconds since the last collection, by which the rates are divided.
  unfoldable pub rate_duration : Time → Time → fl.F
  unfolding float_seconds
  rate_duration prev now =
      let d : fl.F = if is_zero prev then fl.of_nat 0 else float_seconds fl (sub_time now prev) in
      if fl.lt d (fl.of_nat 0) || fl.eq d (fl.of_nat 0) then fl.of_nat 1 else d

  -- The difference of two counters is one of `uint64`.
  unfoldable pub rate : ℕ → ℕ → fl.F → fl.F
  rate current prev duration = fl.div (fl.of_nat (sub_u64 current prev)) duration

  abbrev pub no_stats : DiskIoStats fl.F
  no_stats = record {
    read_bytes = pos 0;
    write_bytes = pos 0;
    reads = pos 0;
    writes = pos 0;
    read_bytes_per_sec = fl.of_nat 0;
    write_bytes_per_sec = fl.of_nat 0;
    reads_per_sec = fl.of_nat 0;
    writes_per_sec = fl.of_nat 0;
    io_in_progress = pos 0;
    io_time = pos 0;
    read_time = pos 0;
    write_time = pos 0;
    error_flag = false;
  }

  unfoldable pub counted : IoCounters → DiskIoStats fl.F
  counted io = record no_stats {
    read_bytes = to_int64 io.read_bytes;
    write_bytes = to_int64 io.write_bytes;
    reads = to_int64 io.read_count;
    writes = to_int64 io.write_count;
    read_time = to_int64 io.read_time;
    write_time = to_int64 io.write_time;
    io_in_progress = to_int64 io.iops_in_progress;
    io_time = to_int64 io.io_time;
  }

  -- The statistics, with rates where there is an earlier collection that has the device.
  unfoldable pub io_stats : IoCounters → Option IoCounters → fl.F → DiskIoStats fl.F
  unfolding counted rate
  io_stats io none duration = counted io
  io_stats io (some prev) duration = record (counted io) {
    read_bytes_per_sec = rate io.read_bytes prev.read_bytes duration;
    write_bytes_per_sec = rate io.write_bytes prev.write_bytes duration;
    reads_per_sec = rate io.read_count prev.read_count duration;
    writes_per_sec = rate io.write_count prev.write_count duration;
  }
