-- ===== src/Collectors/Cpu/Collection.antt =====
-- internal/collectors/cpu.go: NewCPUCollector, the rounds of the background goroutine and Collect.
use system_monitor_go.Base.{
  ℕ, ◌+◌, Bool, true, ◌&&◌, ◌||◌, List, [], ◌∷◌, Text, codes, text_eq, any, Time, zero_time,
  since_lt, seconds, milliseconds, Result, ok, err, Outcome, ret, panic, index_out_of_range, ◌>>=◌,
  ℤ, pos, ltb_ℤ, length, ltb, if◌then◌else◌,
}
use system_monitor_go.Base.Floats.{Float64}
use system_monitor_go.Config.Settings.{CpuCollectorSettings}
use system_monitor_go.Models.Cpu.{CpuCore, CpuMetrics}
use system_monitor_go.Collectors.Cpu.{CpuInfo, Sensor, Answers, CpuCollector}
use system_monitor_go.Collectors.Cpu.Sensors.{read_temperatures}
use system_monitor_go.Collectors.Cpu.Details.{
  Value, get_cpu_detailed_info, get_int_value_safely, get_float_value_safely,
}

-- `startBackgroundCollection` only marks that its goroutine runs; its rounds are `background_round`.
unfoldable pub new_cpu_collector : (F : Type 0) → CpuCollectorSettings → CpuCollector F
new_cpu_collector F cfg = record {
  cached_percent = [];
  cached_percents = [];
  cached_time = zero_time;
  cache_duration = seconds cfg.cache_duration_seconds;
  sampling_duration = milliseconds cfg.background_sampling_millis;
  update_frequency = seconds cfg.background_frequency_seconds;
  direct_sampling = milliseconds cfg.direct_sampling_millis;
  background_running = true;
}

keep_percents :
    {F : Type 0}
    → Time
    → Result Text (List F)
    → Result Text (List F)
    → CpuCollector F
    → CpuCollector F
keep_percents now (ok total) (ok cores) c = record c {
  cached_percent = total;
  cached_percents = cores;
  cached_time = now;
}
keep_percents now (ok total) (err e) c = c
keep_percents now (err e) cores c = c

unfoldable pub background_round : {F : Type 0} → Time → Answers F → CpuCollector F → CpuCollector F
unfolding keep_percents
background_round after a c =
    keep_percents after (a.total_percent c.sampling_duration) (a.core_percents c.sampling_duration)
      c

abbrev ms_500 : ℤ
ms_500 = pos 500000000

-- A sampling that is not positive is set to 750 milliseconds for good.
unfoldable pub with_sampling : {F : Type 0} → CpuCollector F → CpuCollector F
with_sampling c =
    if ltb_ℤ (pos 0) c.direct_sampling then c else record c { direct_sampling = pos 750000000 }

-- `samplingTime`
unfoldable pub sampling_time : ℤ → ℤ
sampling_time d = if ltb_ℤ d ms_500 then ms_500 else d

-- The usages and the collector that has them in its cache, or the error of a sampling, the total's
-- before the cores'.
unfoldable pub sampled :
    {F : Type 0}
    → Time
    → Result Text (List F)
    → Result Text (List F)
    → CpuCollector F
    → CpuCollector F × Result Text (List F × List F)
sampled now (err e) cores c = (c, err e)
sampled now (ok total) (err e) c = (c, err e)
sampled now (ok total) (ok cores) c = (
  record c { cached_percent = total; cached_percents = cores; cached_time = now },
  ok (total, cores),
)

unfoldable pub usages :
    {F : Type 0}
    → Time
    → Time
    → Answers F
    → CpuCollector F
    → CpuCollector F × Result Text (List F × List F)
unfolding sampled sampling_time
usages now after a c =
    if since_lt now c.cached_time c.cache_duration
      && ltb 0 (length c.cached_percent)
      && ltb 0 (length c.cached_percents)
    then (c, ok (c.cached_percent, c.cached_percents))
    else sampled after (a.total_percent (sampling_time c.direct_sampling))
        (a.core_percents (sampling_time c.direct_sampling)) c

-- `info[0]` and `percent[0]`
unfoldable pub first_of : {A : Type 0} → List A → Outcome A
first_of [] = panic index_out_of_range
first_of (x ∷ xs) = ret x

-- `logicalCounts != physicalCounts`
unfoldable pub differ : ℤ → ℤ → Bool
differ a b = ltb_ℤ a b || ltb_ℤ b a

module _ (fl : Float64) where
  -- The cores in the order of their usages, not yet warm.
  unfoldable pub make_cores : ℕ → List fl.F → List (CpuCore fl.F)
  make_cores i [] = []
  make_cores i (p ∷ ps) =
      record { id = pos i; usage = p; temperature = fl.of_nat 0 } ∷ make_cores (i + 1) ps

  -- Sensors that cannot be read leave the cores as they are.
  unfoldable pub warm_cores :
      Bool
      → Result Text (List (Sensor fl.F))
      → List (CpuCore fl.F)
      → Outcome (List (CpuCore fl.F) × fl.F)
  unfolding read_temperatures
  warm_cores hyper (err e) cores = ret (cores, fl.of_nat 0)
  warm_cores hyper (ok ss) cores = read_temperatures fl hyper ss cores

  has_flag : CpuInfo fl.F → Text → Bool
  unfolding text_eq
  has_flag i flag = any (λ f. text_eq f flag) i.flags

  unfoldable pub metrics_of :
      CpuInfo fl.F
      → fl.F
      → ℤ
      → ℤ
      → List (CpuCore fl.F) × fl.F
      → List (Text × Value fl.F)
      → CpuMetrics fl.F
  unfolding has_flag differ get_int_value_safely get_float_value_safely
  metrics_of i percent logical physical warm details = record {
    architecture = i.model_name;
    model = i.model_name;
    vendor = i.vendor_id;
    cache_size = i.cache_size;
    clock_speed = i.mhz;
    total_cores = physical;
    total_logical_cores = logical;
    usage = percent;
    temperature = warm.1;
    has_vmx = has_flag i (codes "vmx");
    has_svm = has_flag i (codes "svm");
    has_avx = has_flag i (codes "avx");
    has_avx2 = has_flag i (codes "avx2");
    has_neon = has_flag i (codes "neon");
    has_sve = has_flag i (codes "sve");
    is_hyperthreading = differ logical physical;
    l1_cache_size = get_int_value_safely fl details (codes "l1_cache");
    l2_cache_size = get_int_value_safely fl details (codes "l2_cache");
    l3_cache_size = get_int_value_safely fl details (codes "l3_cache");
    base_clock_speed = get_float_value_safely fl details (codes "base_clock_speed");
    max_clock_speed = get_float_value_safely fl details (codes "max_clock_speed");
    min_clock_speed = get_float_value_safely fl details (codes "min_clock_speed");
    cores = warm.0;
  }

module _ (fl : Float64) (parse_float : Text → fl.F × Bool) where
  -- The part of `Collect` behind the sampling.
  unfoldable pub build :
      Answers fl.F → List (CpuInfo fl.F) → ℤ → ℤ → List fl.F × List fl.F → Outcome (CpuMetrics fl.F)
  unfolding make_cores warm_cores first_of differ metrics_of get_cpu_detailed_info
  build a infos logical physical (percent, percents) =
      warm_cores fl (differ logical physical) a.temperatures (make_cores fl 0 percents) >>= λ warm.
      first_of infos >>= λ i. first_of percent >>= λ p.
      ret (metrics_of fl i p logical physical warm (get_cpu_detailed_info fl parse_float a.lscpu))

  unfoldable pub finish :
      Answers fl.F
      → List (CpuInfo fl.F)
      → ℤ
      → ℤ
      → CpuCollector fl.F × Result Text (List fl.F × List fl.F)
      → Outcome (CpuCollector fl.F × Result Text (CpuMetrics fl.F))
  unfolding build
  finish a infos logical physical (c, err e) = ret (c, err e)
  finish a infos logical physical (c, ok u) =
      build a infos logical physical u >>= λ m. ret (c, ok m)

  -- The errors of the three first questions, in their order; `u` is the sampling behind them.
  unfoldable pub guarded :
      Answers fl.F
      → CpuCollector fl.F
      → CpuCollector fl.F × Result Text (List fl.F × List fl.F)
      → Result Text (List (CpuInfo fl.F))
      → Result Text ℤ
      → Result Text ℤ
      → Outcome (CpuCollector fl.F × Result Text (CpuMetrics fl.F))
  unfolding finish
  guarded a c u (err e) logical physical = ret (c, err e)
  guarded a c u (ok infos) (err e) physical = ret (c, err e)
  guarded a c u (ok infos) (ok logical) (err e) = ret (c, err e)
  guarded a c u (ok infos) (ok logical) (ok physical) = finish a infos logical physical u

  -- `Collect`, called at `now`, with `after` the time at which it stores the usages.
  unfoldable pub collect :
      Time
      → Time
      → Answers fl.F
      → CpuCollector fl.F
      → Outcome (CpuCollector fl.F × Result Text (CpuMetrics fl.F))
  unfolding guarded usages with_sampling
  collect now after a c =
      guarded a (with_sampling c) (usages now after a (with_sampling c)) a.info a.logical_counts
        a.physical_counts
