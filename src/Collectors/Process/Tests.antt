-- ===== src/Collectors/Process/Tests.antt =====
-- Runs of the process collector, and its theorems at concrete inputs.
use system_monitor_go.Base.{
  answered, ℕ, ℤ, true, ◌≡◌, refl, arith, Option, none, some, List, [], ◌∷◌, map, Text, codes, ok,
  err, pos, negsuc, Time, zero_time, Result, seconds, eq_ℤ, itoa, quot, to_int64, get_elem?,
}
use system_monitor_go.Base.Floats.{whole}
use system_monitor_go.Config.Settings.{ProcessCollectorSettings}
use system_monitor_go.Models.Process.{ProcessInfo}
use system_monitor_go.Collectors.Process.{Process, Answers, ProcessCollector, new_process_collector}
use system_monitor_go.Collectors.Process.Report.{
  report, user_of, usage_between, cpu_time_of, duration_of, get_username_from_uid,
}
use system_monitor_go.Collectors.Process.Collection.{collect_process_metrics, round_of}
use system_monitor_go.Collectors.Process.Steps.{step, finished}
use system_monitor_go.Collectors.Process.Overlap.{between, between-usage}
use system_monitor_go.Collectors.Goroutines.{run, idle}
use system_monitor_go.Collectors.Process.Usage.{collect_twice-usage, expected_usage, last_time}

-- A process of which only the times are known.
abbrev silent : ℤ → ℕ → Process ℕ
silent pid time = record {
  pid = pid;
  ppid = err (codes "gone");
  name = err (codes "gone");
  cmdline = err (codes "gone");
  uids = err (codes "gone");
  status = err (codes "gone");
  times = ok time;
  memory_info = ok none;
  nice = err (codes "gone");
  num_threads = err (codes "gone");
  open_files = err (codes "gone");
  create_time = err (codes "gone");
  io_counters = err (codes "gone");
}

abbrev shell : ℕ → Process ℕ
shell time = record (silent (pos 7) time) {
  ppid = ok (pos 1);
  name = ok (codes "sh");
  uids = ok (pos 1000 ∷ pos 0 ∷ []);
  status = ok (codes "S" ∷ []);
  memory_info = ok (some (record { rss = 4096; vms = 8192 }));
  create_time = ok (pos 1700000000999);
}

abbrev root_only : Text → Result Text Text
root_only uid = err (codes "unknown user")

abbrev answers : List (Process ℕ) → Answers ℕ
answers ps = record { processes = ok ps; logical_cores = ok (pos 2); lookup_id = root_only }

abbrev settings : ProcessCollectorSettings
settings = record { cache_duration_seconds = pos 3; update_frequency_seconds = pos 2 }

abbrev start : ProcessCollector ℕ
start = record {
  cached_metrics = [];
  cached_time = zero_time;
  cache_duration = pos 3000000000;
  update_frequency = pos 2000000000;
  background_running = true;
  prev_cpu_times = [];
  prev_time = zero_time;
}

starts_empty : new_process_collector ℕ settings ≡ start
unfolding new_process_collector seconds to_int64
starts_empty = refl

-- The user of an unknown number is that number, and milliseconds become seconds.
reports_shell : (report whole (round_of whole 5 (answers []) start) (shell 4)).user ≡ codes "1000"
unfolding report user_of get_username_from_uid itoa round_of system_monitor_go.Base.format_uint
reports_shell = refl

reports_start :
    (report whole (round_of whole 5 (answers []) start) (shell 4)).start_time ≡ pos 1700000000
unfolding report answered quot round_of
reports_start = refl

-- A process that used 3 of 5 seconds on one of two cores, in whole numbers.
usage_of_shell :
    map (expected_usage whole (pos 2) 5 (shell 4 ∷ [])) (shell 9 ∷ silent (pos 8) 3 ∷ [])
    ≡ 50 ∷ 0 ∷ []
unfolding expected_usage last_time usage_between cpu_time_of answered eq_ℤ
usage_of_shell = refl

collect_twice-usage_example :
    (is : List (ProcessInfo ℕ)) × ((collect_process_metrics whole 5000000001
        (answers (shell 9 ∷ silent (pos 8) 3 ∷ []))
        (collect_process_metrics whole 1 (answers (shell 4 ∷ [])) start).0).1
      ≡ ok is)
    × (map (λ i. i.cpu_usage) is
        ≡ map
            (expected_usage whole
              (answered {E = Text} (pos 1) (ok (pos 2)))
              (duration_of whole 1 5000000001)
              (shell 4 ∷ []))
            (shell 9 ∷ silent (pos 8) 3 ∷ []))
collect_twice-usage_example =
    collect_twice-usage whole 1 5000000001 (answers (shell 4 ∷ []))
      (answers (shell 9 ∷ silent (pos 8) 3 ∷ [])) start (shell 4 ∷ [])
      (shell 9 ∷ silent (pos 8) 3 ∷ []) refl refl refl

-- A collector that collected before
abbrev running : ProcessCollector ℕ
running = record start { prev_cpu_times = (pos 7, 1) ∷ []; prev_time = 1 }

between-usage_example :
    (is : List (ProcessInfo ℕ)) × (get_elem?
        (run
          (step whole)
          (between 5000000001 4000000001 6000000001
            (answers (shell 9 ∷ []))
            (answers (shell 4 ∷ [])))
          (idle running)).phases
        0
      ≡ some (finished (ok is)))
    × (map (λ i. i.cpu_usage) is
        ≡ map
            (expected_usage whole
              (answered {E = Text} (pos 1) (ok (pos 2)))
              (duration_of whole 1 5000000001)
              (shell 4 ∷ []))
            (shell 9 ∷ []))
between-usage_example =
    between-usage whole 5000000001 4000000001 6000000001 (answers (shell 9 ∷ []))
      (answers (shell 4 ∷ [])) running (shell 4 ∷ []) (shell 9 ∷ []) refl refl refl
