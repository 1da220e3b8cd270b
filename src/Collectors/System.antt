-- ===== src/Collectors/System.antt =====
-- internal/collectors/system.go: SystemCollector. What the operating system answers in one collection
-- is an argument. A collection runs as one step here; Steps cuts it where it takes or leaves the
-- lock, and Alone compares the two.
pub mod Cache
pub mod Steps
pub mod Alone
pub mod Overlap
use system_monitor_go.Base.{
  ℕ, ◌+◌, ◌-◌, ◌%◌, Bool, true, false, List, [], ◌∷◌, Text, Time, zero_time, since_lt, seconds,
  Result, ok, err, ℤ, pos, negsuc, to_int64, add_u64, u64_mod, if◌then◌else◌,
}
use system_monitor_go.Base.Floats.{Float64}
use system_monitor_go.Config.Settings.{SystemCollectorSettings}
use system_monitor_go.Models.Host.{SystemInfo}
use system_monitor_go.Collectors.Master.{blank_system}

pub record SystemCollector : Type 0 where
  pub cached_info : SystemInfo
  pub cached_time : Time
  pub cache_duration : ℤ
  pub update_frequency : ℤ
  pub background_running : Bool
  pub static_info_loaded : Bool

-- The fields of `host.InfoStat` that are read.
pub record HostInfo : Type 0 where
  pub hostname : Text
  pub os : Text
  pub platform : Text
  pub platform_family : Text
  pub platform_version : Text
  pub kernel_arch : Text
  pub boot_time : ℕ
  pub uptime : ℕ

-- What one collection is told. Of a process its `NumThreads` and its `NumFDs` are read.
pub record Answers : Type 0 where
  pub static_host : Result Text HostInfo
  pub kernel_version : Result Text Text
  pub host : Result Text HostInfo
  pub processes : Result Text (List (Result Text ℤ × Result Text ℤ))

-- `startBackgroundCollection` only marks that its goroutine runs; its rounds are `background_round`.
unfoldable pub new_system_collector : SystemCollectorSettings → SystemCollector
new_system_collector cfg = record {
  cached_info = blank_system;
  cached_time = zero_time;
  cache_duration = seconds cfg.cache_duration_seconds;
  update_frequency = seconds cfg.update_frequency_seconds;
  background_running = true;
  static_info_loaded = false;
}

unfoldable pub collect_static_info : Answers → Result Text SystemInfo
collect_static_info a = elim a.static_host [
  | err e ↦ err e
  | ok stat ↦ elim a.kernel_version [
    | err e ↦ err e
    | ok version ↦ ok (record blank_system {
      hostname = stat.hostname;
      os_name = stat.os;
      platform_family = stat.platform_family;
      platform = stat.platform;
      os_version = stat.platform_version;
      os_architecture = stat.kernel_arch;
      os_kernel_version = version;
    })
  ]
]

-- `uint64(n)` of a signed integer
abbrev pub to_uint64 : ℤ → ℕ
to_uint64 (pos n) = n % u64_mod
to_uint64 (negsuc n) = u64_mod - 1 - n % u64_mod

-- A count that may be refused is left out of the sum.
unfoldable pub add_count : Result Text ℤ → ℕ → ℕ
add_count (ok n) total = add_u64 total (to_uint64 n)
add_count (err e) total = total

-- The loop over the processes: their number, threads and file descriptors.
unfoldable pub count_processes : List (Result Text ℤ × Result Text ℤ) → ℕ × ℕ × ℕ → ℕ × ℕ × ℕ
unfolding add_count
count_processes [] t = t
count_processes ((threads, fds) ∷ ps) t =
    count_processes ps (add_u64 t.0 1, add_count threads t.1, add_count fds t.2)

-- The two goroutines write different fields; the host's error is told first.
unfoldable pub collect_dynamic_info : Answers → SystemInfo → Result Text SystemInfo
unfolding count_processes
collect_dynamic_info a info = elim a.host [
  | err e ↦ err e
  | ok stat ↦ elim a.processes [
    | err e ↦ err e
    | ok ps ↦
        let t : ℕ × ℕ × ℕ = count_processes ps (0, 0, 0) in
        ok (record info {
          boot_time = to_int64 stat.boot_time;
          uptime = to_int64 stat.uptime;
          total_processes = t.0;
          total_threads = t.1;
          total_file_descriptors = t.2;
        })
  ]
]

-- The second half of `collectSystemInfo`: the flag, if it is not set yet, is set before the variable
-- part is collected.
unfoldable pub after_static :
    Answers → SystemCollector → Result Text SystemInfo → SystemCollector × Result Text SystemInfo
unfolding collect_dynamic_info
after_static a c (err e) = (c, err e)
after_static a c (ok info) = (record c { static_info_loaded = true }, collect_dynamic_info a info)

unfoldable pub collect_system_info :
    Answers → SystemCollector → SystemCollector × Result Text SystemInfo
unfolding collect_static_info after_static
collect_system_info a c =
    after_static a c (if c.static_info_loaded then ok c.cached_info else collect_static_info a)

-- What `Collect` and the background goroutine do with a collection: it is cached, with the time,
-- unless it failed.
unfoldable pub store : Time → SystemCollector × Result Text SystemInfo → SystemCollector
store now (c, ok info) = record c { cached_info = info; cached_time = now }
store now (c, err e) = c

-- `Collect`, called at `now`, with `after` the time at which it stores.
unfoldable pub collect :
    Time → Time → Answers → SystemCollector → SystemCollector × Result Text SystemInfo
unfolding collect_system_info store
collect now after a c =
    if since_lt now c.cached_time c.cache_duration
    then (c, ok c.cached_info)
    else (store after (collect_system_info a c), (collect_system_info a c).1)

unfoldable pub background_round : Time → Answers → SystemCollector → SystemCollector
unfolding collect_system_info store
background_round after a c = store after (collect_system_info a c)
