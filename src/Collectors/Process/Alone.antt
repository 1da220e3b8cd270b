-- ===== src/Collectors/Process/Alone.antt =====
-- internal/collectors/process.go: collections that do not overlap take the steps of one at a time.
use system_monitor_go.Base.{
  ◌≡◌, refl, ◌&&◌, inl, inr, Bool-cases, Result-cases, List, [], ◌∷◌, Time, since_lt, length, ltb,
  Text, Result,
}
use system_monitor_go.Base.Floats.{Float64}
use system_monitor_go.Models.Process.{ProcessInfo}
use system_monitor_go.Collectors.Process.{Answers, ProcessCollector}
use system_monitor_go.Collectors.Process.Collection.{collect_process_metrics, store, collect}
use system_monitor_go.Collectors.Process.Steps.{
  Phase, checking, starting, finished, checked, begun, round_since, step,
}
use system_monitor_go.Collectors.Goroutines.{Action, begin, move, Shared, react, run, idle}

module _ (fl : Float64) where
  -- The end of a goroutine, with what a collection gives
  abbrev pub ended :
      ProcessCollector fl.F × Result Text (List (ProcessInfo fl.F))
      → Shared (ProcessCollector fl.F) (Phase fl.F)
  ended r = record { collector = r.0; phases = finished r.1 ∷ [] }

  -- A collection from its start on, which stores at its end.
  abbrev pub from_start : Time → Time → Phase fl.F → List (Action (Phase fl.F))
  from_start now after p = begin p ∷ move now 0 ∷ move now 0 ∷ move now 0 ∷ move after 0 ∷ []

  round-alone :
      (now after : Time) (a : Answers fl.F) (c : ProcessCollector fl.F)
      → run (step fl) (from_start now after (starting a)) (idle c)
        ≡ ended (
          store fl after (collect_process_metrics fl now a c),
          (collect_process_metrics fl now a c).1,
        )
  unfolding run react step begun round_since store collect_process_metrics
  round-alone now after a c = elim (Result-cases a.processes) [
    | inl (ps, e) ↦ rw (e, begun, collect_process_metrics) refl
    | inr (x, e) ↦ rw (e, begun, collect_process_metrics) refl
  ]

  -- A call of `Collect` that takes its steps without another goroutine between them does to the
  -- collector, and replies, what it does as one step.
  pub collect-alone :
      (at now after : Time) (a : Answers fl.F) (c : ProcessCollector fl.F)
      → run
          (step fl)
          (begin (checking at a)
            ∷ move at 0
            ∷ move now 0
            ∷ move now 0
            ∷ move now 0
            ∷ move after 0
            ∷ [])
          (idle c)
        ≡ ended (collect fl at now after a c)
  unfolding run react step checked collect
  collect-alone at now after a c =
      elim (Bool-cases
        (since_lt at c.cached_time c.cache_duration && ltb 0 (length c.cached_metrics))) [
          | inl e ↦ rw (e, collect) refl
          | inr e ↦ rw (e, collect) (round-alone now after a c)
        ]
