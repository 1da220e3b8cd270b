-- ===== src/Collectors/Process/Collection.antt =====
-- internal/collectors/process.go: collectProcessMetrics, Collect and collectAndCache.
use system_monitor_go.Base.{
  answered, ℤ, ◌&&◌, List, [], ◌∷◌, Text, Time, is_zero, since_lt, Result, ok, err, pos, length,
  ltb, if◌then◌else◌,
}
use system_monitor_go.Base.Floats.{Float64}
use system_monitor_go.Models.Process.{ProcessInfo}
use system_monitor_go.Collectors.Process.{Process, Answers, ProcessCollector}
use system_monitor_go.Collectors.Process.Report.{Round, duration_of, report}

-- `newCPUTimes[pid] = cpuTime`, if the times are known
unfoldable pub note_time : {F : Type 0} → Process F → List (ℤ × F) → List (ℤ × F)
note_time p times = elim p.times [ ok t ↦ (p.pid, t) ∷ times | err e ↦ times ]

module _ (fl : Float64) where
  -- The loop over the processes: the new times and the reports.
  unfoldable pub collect_processes :
      Round fl → List (ℤ × fl.F) → List (Process fl.F) → List (ℤ × fl.F) × List (ProcessInfo fl.F)
  unfolding note_time report
  collect_processes r times [] = (times, [])
  collect_processes r times (p ∷ ps) =
      let rest : List (ℤ × fl.F) × List (ProcessInfo fl.F) =
        collect_processes r (note_time p times) ps in
      (rest.0, report fl r p ∷ rest.1)

  unfoldable pub round_of : Time → Answers fl.F → ProcessCollector fl.F → Round fl
  unfolding answered duration_of
  round_of now a c = record {
    lookup_id = a.lookup_id;
    logical_cores = answered (pos 1) a.logical_cores;
    first = is_zero c.prev_time;
    duration = duration_of fl c.prev_time now;
    prev_cpu_times = c.prev_cpu_times;
  }

  -- `collectProcessMetrics`, with `now` its current time
  unfoldable pub collect_process_metrics :
      Time
      → Answers fl.F
      → ProcessCollector fl.F
      → ProcessCollector fl.F × Result Text (List (ProcessInfo fl.F))
  unfolding collect_processes round_of
  collect_process_metrics now a c = elim a.processes [
    | err e ↦ (c, err e)
    | ok ps ↦
        let out : List (ℤ × fl.F) × List (ProcessInfo fl.F) =
          collect_processes (round_of now a c) [] ps in
        (record c { prev_cpu_times = out.0; prev_time = now }, ok out.1)
  ]

  -- `Collect` and `collectAndCache` keep the reports, with the time, unless there was an error.
  unfoldable pub store :
      Time → ProcessCollector fl.F × Result Text (List (ProcessInfo fl.F)) → ProcessCollector fl.F
  store now (c, ok ms) = record c { cached_metrics = ms; cached_time = now }
  store now (c, err e) = c

  unfoldable pub collect_and_cache :
      Time → Time → Answers fl.F → ProcessCollector fl.F → ProcessCollector fl.F
  unfolding collect_process_metrics store
  collect_and_cache now after a c = store after (collect_process_metrics now a c)

  -- `Collect`, called at `at`. An empty list in the cache does not count.
  unfoldable pub collect :
      Time
      → Time
      → Time
      → Answers fl.F
      → ProcessCollector fl.F
      → ProcessCollector fl.F × Result Text (List (ProcessInfo fl.F))
  unfolding collect_process_metrics store
  collect at now after a c =
      if since_lt at c.cached_time c.cache_duration && ltb 0 (length c.cached_metrics)
      then (c, ok c.cached_metrics)
      else (store after (collect_process_metrics now a c), (collect_process_metrics now a c).1)
