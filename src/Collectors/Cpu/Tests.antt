-- ===== src/Collectors/Cpu/Tests.antt =====
-- Runs of the processor's collector, and its theorems at concrete inputs.
use system_monitor_go.Base.{
  ℕ, ◌*◌, ◌+◌, ◌≤◌, ◌≡◌, ◌↔◌, refl, arith, true, List, [], ◌∷◌, codes, ok, err, panic,
  index_out_of_range, pos, decimal, Finishes, to_lower, contains, text_eq,
}
use system_monitor_go.Base.Floats.{whole}
use system_monitor_go.Config.Settings.{CpuCollectorSettings}
use system_monitor_go.Models.Cpu.{CpuCore}
use system_monitor_go.Collectors.Cpu.{CpuInfo, Sensor, Answers}
use system_monitor_go.Collectors.Cpu.Details.{
  parse_size, find_clock, get_cpu_detailed_info, get_int_value_safely,
}
use system_monitor_go.Collectors.Cpu.Sensors.{read_sensor, core_id}
use system_monitor_go.Collectors.Cpu.Collection.{new_cpu_collector, collect}
use system_monitor_go.Collectors.Cpu.Size.{parse_size-unit_of}
use system_monitor_go.Collectors.Cpu.Cores.{read_sensor-panic_iff}
use system_monitor_go.Collectors.Cpu.Safety.{collect-Finishes}

reads_clock : find_clock (codes "Core i7-7600U CPU @ 2.80GHz") ≡ codes "2.80"
unfolding find_clock
reads_clock = refl

-- `lscpu` gives the size of all the caches of a kind, with a fraction where it is no whole number.
parse_size-unit_of_example : parse_size (codes "1.5 MiB") ≡ pos 1048576
unfolding contains
parse_size-unit_of_example =
    parse_size-unit_of b'1' [] b'.' (codes "5 MiB") (omega arith) refl (omega arith)

-- A line with more than one colon is left out.
reads_cache :
    get_int_value_safely whole
      (get_cpu_detailed_info whole
        (λ t. (decimal t, true))
        (ok (codes "Flags: a:b\nL2 cache:  256 KiB\n")))
      (codes "l2_cache")
    ≡ pos 262144
unfolding get_int_value_safely get_cpu_detailed_info text_eq
reads_cache = refl

abbrev cold : ℕ → CpuCore ℕ
cold i = record { id = pos i; usage = 5; temperature = 0 }

abbrev four_cores : List (CpuCore ℕ)
four_cores = cold 0 ∷ cold 1 ∷ cold 2 ∷ cold 3 ∷ []

-- The third core of two that have two threads each.
abbrev third_core : Sensor ℕ
third_core = record { sensor_key = codes "coretemp_core_2"; temperature = 60 }

read_sensor-panic_iff_example :
    (read_sensor true third_core (four_cores, 0) ≡ panic index_out_of_range) ↔ (4 ≤ 2 * 2 + 1)
unfolding core_id to_lower
read_sensor-panic_iff_example = read_sensor-panic_iff third_core four_cores 0 2 refl

abbrev one_info : CpuInfo ℕ
one_info = record {
  model_name = codes "Model";
  vendor_id = codes "Vendor";
  cache_size = pos 4096;
  mhz = 2800;
  flags = codes "avx" ∷ [];
}

abbrev some_answers : Answers ℕ
some_answers = record {
  info = ok (one_info ∷ []);
  logical_counts = ok (pos 4);
  physical_counts = ok (pos 4);
  total_percent = λ d. ok (7 ∷ []);
  core_percents = λ d. ok (5 ∷ 5 ∷ 5 ∷ 5 ∷ []);
  temperatures = ok (third_core ∷ []);
  lscpu = err (codes "no lscpu");
}

abbrev some_settings : CpuCollectorSettings
some_settings = record {
  cache_duration_seconds = pos 3;
  background_sampling_millis = pos 500;
  background_frequency_seconds = pos 2;
  direct_sampling_millis = pos 0;
}

collect-Finishes_example : Finishes (
    collect whole
      (λ t. (decimal t, true))
      5
      6
      some_answers
      (new_cpu_collector whole.F some_settings))
collect-Finishes_example =
    collect-Finishes whole (λ t. (decimal t, true)) 5 6 some_answers
      (new_cpu_collector whole.F some_settings) (λ is e. ground arith) (λ d l e. ground arith) refl
