-- ===== src/Collectors/Process/Report.antt =====
-- internal/collectors/process.go: the report on one process, the body of the loop in
-- collectProcessMetrics.
use system_monitor_go.Base.{
  answered, ℤ, Bool, ◌||◌, Option, none, some, List, [], ◌∷◌, Text, Time, is_zero, sub_time, Result,
  ok, err, pos, to_int64, quot, itoa, if◌then◌else◌,
}
use system_monitor_go.Base.Floats.{Float64, float_seconds}
use system_monitor_go.Models.Process.{ProcessInfo}
use system_monitor_go.Collectors.Process.{MemoryInfo, IoCounters, Process, lookup_pid}

unfoldable pub get_username_from_uid : (Text → Result Text Text) → Text → Text
get_username_from_uid lookup_id uid = elim (lookup_id uid) [ ok name ↦ name | err e ↦ uid ]

unfoldable pub user_of : (Text → Result Text Text) → Result Text (List ℤ) → Text
unfolding get_username_from_uid itoa
user_of lookup_id (ok (uid ∷ uids)) = get_username_from_uid lookup_id (itoa uid)
user_of lookup_id (ok []) = []
user_of lookup_id (err e) = []

unfoldable pub status_of : Result Text (List Text) → Text
status_of (ok (s ∷ ss)) = s
status_of (ok []) = []
status_of (err e) = []

unfoldable pub memory_of : Result Text (Option MemoryInfo) → ℤ × ℤ
memory_of (ok (some m)) = (to_int64 m.rss, to_int64 m.vms)
memory_of (ok none) = (pos 0, pos 0)
memory_of (err e) = (pos 0, pos 0)

unfoldable pub io_of : Result Text (Option IoCounters) → ℤ × ℤ
io_of (ok (some io)) = (to_int64 io.read_bytes, to_int64 io.write_bytes)
io_of (ok none) = (pos 0, pos 0)
io_of (err e) = (pos 0, pos 0)

module _ (fl : Float64) where
  -- The seconds since the last collection, by which the usages are divided.
  unfoldable pub duration_of : Time → Time → fl.F
  unfolding float_seconds
  duration_of prev now =
      let d : fl.F = if is_zero prev then fl.of_nat 0 else float_seconds fl (sub_time now prev) in
      if fl.lt d (fl.of_nat 0) || fl.eq d (fl.of_nat 0) then fl.of_nat 1 else d

  -- What stays the same for all the processes of one collection.
  pub record Round : Type 0 where
    pub lookup_id : Text → Result Text Text
    pub logical_cores : ℤ
    pub first : Bool
    pub duration : fl.F
    pub prev_cpu_times : List (ℤ × fl.F)

  unfoldable pub cpu_time_of : Result Text fl.F → fl.F
  unfolding answered
  cpu_time_of times = answered (fl.of_nat 0) times

  -- A share that is not at least 0 is left out.
  unfoldable pub usage_between : ℤ → fl.F → fl.F → fl.F → fl.F
  usage_between cores duration prev time =
      let per_core : fl.F = fl.mul (fl.div (fl.sub time prev) duration) (fl.of_nat 100) in
      let total : fl.F = fl.div per_core (fl.of_int cores) in
      if fl.lt (fl.of_nat 0) total || fl.eq total (fl.of_nat 0) then total else fl.of_nat 0

  unfoldable pub usage_since : Round → Option fl.F → fl.F → fl.F
  unfolding usage_between
  usage_since r none time = fl.of_nat 0
  usage_since r (some prev) time = usage_between r.logical_cores r.duration prev time

  unfoldable pub usage_of : Round → ℤ → fl.F → fl.F
  unfolding lookup_pid usage_since
  usage_of r pid time =
      usage_since r (if r.first then none else lookup_pid pid r.prev_cpu_times) time

  unfoldable pub report : Round → Process fl.F → ProcessInfo fl.F
  unfolding user_of status_of memory_of io_of answered cpu_time_of usage_of quot
  report r p = record {
    pid = p.pid;
    ppid = answered (pos 0) p.ppid;
    name = answered [] p.name;
    command = answered [] p.cmdline;
    user = user_of r.lookup_id p.uids;
    status = status_of p.status;
    cpu_time = cpu_time_of p.times;
    cpu_usage = usage_of r p.pid (cpu_time_of p.times);
    memory_rss = (memory_of p.memory_info).0;
    memory_vsz = (memory_of p.memory_info).1;
    nice = answered (pos 0) p.nice;
    threads = answered (pos 0) p.num_threads;
    open_files = pos (answered 0 p.open_files);
    start_time = quot (answered (pos 0) p.create_time) 1000;
    io_read_bytes = (io_of p.io_counters).0;
    io_write_bytes = (io_of p.io_counters).1;
  }
