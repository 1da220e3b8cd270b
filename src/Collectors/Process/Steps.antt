-- ===== src/Collectors/Process/Steps.antt =====
-- internal/collectors/process.go: calls of `Collect` and rounds of the background goroutine that overlap.
-- Each is cut where it looks at the collector and where it changes it; the loop over the processes,
-- which looks at the times of the collection before, is one step.
use system_monitor_go.Base.{
  ◌&&◌, List, [], Time, since_lt, length, ltb, ℤ, Text, Result, ok, err, if◌then◌else◌,
}
use system_monitor_go.Base.Floats.{Float64}
use system_monitor_go.Models.Process.{ProcessInfo}
use system_monitor_go.Collectors.Process.{Process, Answers, ProcessCollector}
use system_monitor_go.Collectors.Process.Report.{Round}
use system_monitor_go.Collectors.Process.Collection.{collect_processes, round_of}

-- How far a goroutine is: `Collect` before it looks at the cache; before it looks at the time of the
-- last collection; with its own time, that one and the processes, before the loop; before it keeps
-- the times for the next collection; before it stores its reports; and at its end.
pub data Phase (F : Type 0) : Type 0 where
  checking : Time → Answers F → Phase F
  starting : Answers F → Phase F
  looping : Time → Time → Answers F → List (Process F) → Phase F
  writing : Time → List (ℤ × F) → List (ProcessInfo F) → Phase F
  storing : List (ProcessInfo F) → Phase F
  finished : Result Text (List (ProcessInfo F)) → Phase F

module _ (fl : Float64) where
  unfoldable pub checked : Time → Answers fl.F → ProcessCollector fl.F → Phase fl.F
  checked at a c =
      if since_lt at c.cached_time c.cache_duration && ltb 0 (length c.cached_metrics)
      then finished (ok c.cached_metrics)
      else starting a

  unfoldable pub begun : Time → Answers fl.F → ProcessCollector fl.F → Phase fl.F
  begun now a c = elim a.processes [
    | err e ↦ finished (err e)
    | ok ps ↦ looping now c.prev_time a ps
  ]

  -- The loop at a later state than the one from which the last time was taken
  unfoldable pub round_since : Time → Time → Answers fl.F → ProcessCollector fl.F → Round fl
  unfolding round_of
  round_since now last a c = round_of fl now a (record c { prev_time = last })

  unfoldable pub step :
      Time → Phase fl.F → ProcessCollector fl.F → ProcessCollector fl.F × Phase fl.F
  unfolding checked begun round_since collect_processes
  step now (checking at a) c = (c, checked at a c)
  step now (starting a) c = (c, begun now a c)
  step now (looping t last a ps) c =
      let out : List (ℤ × fl.F) × List (ProcessInfo fl.F) =
        collect_processes fl (round_since t last a c) [] ps in
      (c, writing t out.0 out.1)
  step now (writing t times ms) c = (record c { prev_cpu_times = times; prev_time = t }, storing ms)
  step now (storing ms) c = (record c { cached_metrics = ms; cached_time = now }, finished (ok ms))
  step now (finished r) c = (c, finished r)
