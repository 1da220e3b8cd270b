-- ===== src/Collectors/Memory.antt =====
-- internal/collectors/memory.go: MemoryCollector. What the operating system answers in one
-- collection is an argument. A collection runs as one step here; Steps cuts it where it takes or
-- leaves the lock, and Alone compares the two.
pub mod Hardware
pub mod Cache
pub mod Steps
pub mod Alone
pub mod Overlap
use system_monitor_go.Base.{
  ℕ, Bool, true, false, not, ◌&&◌, List, [], ◌∷◌, Text, Time, zero_time, since_lt, seconds, Result,
  ok, err, Option, none, some, ℤ, pos, to_int64, if◌then◌else◌,
}
use system_monitor_go.Base.Floats.{Float64}
use system_monitor_go.Config.Settings.{MemoryCollectorSettings}
use system_monitor_go.Models.Memory.{MemoryMetrics}
use system_monitor_go.Collectors.Master.{blank_memory}
use Hardware.{get_memory_hardware_info}

-- `sync.Once` is `once_done`.
pub record MemoryCollector (F : Type 0) : Type 0 where
  pub cached_info : MemoryMetrics F
  pub cached_time : Time
  pub cache_duration : ℤ
  pub update_frequency : ℤ
  pub background_running : Bool
  pub static_info_loaded : Bool
  pub once_done : Bool

-- The fields of `mem.VirtualMemoryStat` that are read.
pub record VirtualMemory (F : Type 0) : Type 0 where
  pub total : ℕ
  pub used : ℕ
  pub free : ℕ
  pub available : ℕ
  pub buffers : ℕ
  pub cached : ℕ
  pub used_percent : F

pub record SwapMemory : Type 0 where
  pub total : ℕ
  pub used : ℕ
  pub free : ℕ

-- What one collection is told, in the order of its calls.
pub record Answers (F : Type 0) : Type 0 where
  pub static_memory : Result Text (VirtualMemory F)
  pub static_swap : Result Text SwapMemory
  pub dmidecode : Result Text Text
  pub ghw_modules : Result Text (List ℤ)
  pub memory : Result Text (VirtualMemory F)
  pub swap : Result Text SwapMemory

-- `startBackgroundCollection` only marks that its goroutine runs; its rounds are `background_round`.
unfoldable pub new_memory_collector :
    (fl : Float64) → MemoryCollectorSettings → MemoryCollector fl.F
new_memory_collector fl cfg = record {
  cached_info = blank_memory fl;
  cached_time = zero_time;
  cache_duration = seconds cfg.cache_duration_seconds;
  update_frequency = seconds cfg.update_frequency_seconds;
  background_running = true;
  static_info_loaded = false;
  once_done = false;
}

-- The hardware part of `collectStaticInfo`, with its default values after an error.
with_hardware : {F : Type 0} → Result Text (MemoryMetrics F) → MemoryMetrics F → MemoryMetrics F
with_hardware (ok m) before = m
with_hardware (err e) before = record before {
  data_rate = 0;
  using_slot_count = 0;
  total_slot_count = 0;
  form_factor = [];
}

unfoldable pub collect_static_info :
    (fl : Float64) → Answers fl.F → Result Text (MemoryMetrics fl.F)
unfolding with_hardware get_memory_hardware_info
collect_static_info fl a = elim a.static_memory [
  | err e ↦ err e
  | ok memory ↦ elim a.static_swap [
    | err e ↦ err e
    | ok swap ↦
        let sized : MemoryMetrics fl.F = record (blank_memory fl) {
          total = to_int64 memory.total;
          swap_total = to_int64 swap.total;
        } in
        ok (with_hardware (get_memory_hardware_info a.dmidecode a.ghw_modules sized) sized)
  ]
]

unfoldable pub collect_dynamic_info :
    {F : Type 0} → Answers F → MemoryMetrics F → Result Text (MemoryMetrics F)
collect_dynamic_info a m = elim a.memory [
  | err e ↦ err e
  | ok memory ↦ elim a.swap [
    | err e ↦ err e
    | ok swap ↦ ok (record m {
      used = to_int64 memory.used;
      free = to_int64 memory.free;
      available = to_int64 memory.available;
      buffers = to_int64 memory.buffers;
      cached = to_int64 memory.cached;
      usage_percent = memory.used_percent;
      swap_used = to_int64 swap.used;
      swap_free = to_int64 swap.free;
      paged_pool_size = 0;
      non_paged_pool_size = 0;
    })
  ]
]

-- The static fields are copied into the cache.
unfoldable pub keep_static : {F : Type 0} → MemoryMetrics F → MemoryMetrics F → MemoryMetrics F
keep_static s m = record m {
  total = s.total;
  swap_total = s.swap_total;
  data_rate = s.data_rate;
  using_slot_count = s.using_slot_count;
  total_slot_count = s.total_slot_count;
  form_factor = s.form_factor;
}

-- `collectStaticOnce.Do`: the collector after it, and the error of a first run that fails.
unfoldable pub static_once :
    (fl : Float64) → Answers fl.F → MemoryCollector fl.F → MemoryCollector fl.F × Option Text
unfolding collect_static_info keep_static
static_once fl a c = if c.once_done then (c, none) else elim (collect_static_info fl a) [
  | err e ↦ (record c { once_done = true }, some e)
  | ok s ↦ (
    record c {
      once_done = true;
      static_info_loaded = true;
      cached_info = keep_static s c.cached_info;
    },
    none,
  )
]

unfoldable pub after_once :
    {F : Type 0}
    → Answers F
    → MemoryCollector F × Option Text
    → MemoryCollector F × Result Text (MemoryMetrics F)
unfolding collect_dynamic_info
after_once a (c, some e) = (c, err e)
after_once a (c, none) = (c, collect_dynamic_info a c.cached_info)

unfoldable pub collect_memory_info :
    (fl : Float64)
    → Answers fl.F
    → MemoryCollector fl.F
    → MemoryCollector fl.F × Result Text (MemoryMetrics fl.F)
unfolding static_once after_once
collect_memory_info fl a c = after_once a (static_once fl a c)

-- What `Collect` and the background goroutine do with a collection: it is cached, with the time,
-- unless it failed.
unfoldable pub store :
    {F : Type 0} → Time → MemoryCollector F × Result Text (MemoryMetrics F) → MemoryCollector F
store now (c, ok m) = record c { cached_info = m; cached_time = now }
store now (c, err e) = c

-- `Collect`, called at `now`, with `after` the time at which it stores.
unfoldable pub collect :
    (fl : Float64)
    → Time
    → Time
    → Answers fl.F
    → MemoryCollector fl.F
    → MemoryCollector fl.F × Result Text (MemoryMetrics fl.F)
unfolding collect_memory_info store
collect fl now after a c =
    if since_lt now c.cached_time c.cache_duration && c.static_info_loaded
    then (c, ok c.cached_info)
    else (store after (collect_memory_info fl a c), (collect_memory_info fl a c).1)

unfoldable pub background_round :
    (fl : Float64) → Time → Answers fl.F → MemoryCollector fl.F → MemoryCollector fl.F
unfolding collect_memory_info store
background_round fl after a c = store after (collect_memory_info fl a c)
