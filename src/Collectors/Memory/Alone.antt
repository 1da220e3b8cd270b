-- ===== src/Collectors/Memory/Alone.antt =====
-- internal/collectors/memory.go: collections that do not overlap take the steps of one at a time.
use system_monitor_go.Base.{
  ◌≡◌, refl, ap, ◌&&◌, inl, inr, Bool-cases, Result-cases, Option, some, none, [], ◌∷◌, Time, Text,
  Result, since_lt,
}
use system_monitor_go.Base.Floats.{Float64}
use system_monitor_go.Models.Memory.{MemoryMetrics}
use system_monitor_go.Collectors.Memory.{
  MemoryCollector, Answers, static_once, after_once, collect_dynamic_info, collect_memory_info,
  store, collect, background_round,
}
use system_monitor_go.Collectors.Memory.Steps.{
  Phase, checking, asking, finished, checked, after_do, measured, step,
}
use system_monitor_go.Collectors.Goroutines.{Shared, react, run, idle, moves, in_a_row}

module _ (fl : Float64) where
  -- The end of a goroutine, with what a collection gives
  abbrev pub ended :
      MemoryCollector fl.F × Result Text (MemoryMetrics fl.F)
      → Shared (MemoryCollector fl.F) (Phase fl.F)
  ended r = record { collector = r.0; phases = finished r.1 ∷ [] }

  after_do-alone :
      (after : Time) (a : Answers fl.F) (p : MemoryCollector fl.F × Option Text)
      → run (step fl) (moves 2 after) (record { collector = p.0; phases = after_do fl a p.1 ∷ [] })
        ≡ ended (store after (after_once a p), (after_once a p).1)
  unfolding run react step after_do measured store after_once
  after_do-alone after a (c, some x) = refl
  after_do-alone after a (c, none) = elim (Result-cases (collect_dynamic_info a c.cached_info)) [
    | inl (m, e) ↦ rw e refl
    | inr (x, e) ↦ rw e refl
  ]

  round-alone :
      (after : Time) (a : Answers fl.F) (c : MemoryCollector fl.F)
      → run (step fl) (in_a_row 3 after (asking a)) (idle c)
        ≡ ended (store after (collect_memory_info fl a c), (collect_memory_info fl a c).1)
  unfolding run react step collect_memory_info
  round-alone after a c = after_do-alone after a (static_once fl a c)

  collect-alone :
      (at after : Time) (a : Answers fl.F) (c : MemoryCollector fl.F)
      → run (step fl) (in_a_row 4 after (checking at a)) (idle c) ≡ ended (collect fl at after a c)
  unfolding run react step checked collect
  collect-alone at after a c =
      elim (Bool-cases (since_lt at c.cached_time c.cache_duration && c.static_info_loaded)) [
        | inl e ↦ rw (e, collect) refl
        | inr e ↦ rw (e, collect) (round-alone after a c)
      ]

  -- A call of `Collect` and a round of the background goroutine that take their steps without another
  -- goroutine between them do to the collector, and reply, what they do as one step; the reply of a
  -- round is not used.
  pub run-alone :
      (at after : Time) (a : Answers fl.F) (c : MemoryCollector fl.F)
      → (run (step fl) (in_a_row 4 after (checking at a)) (idle c)
          ≡ ended (collect fl at after a c))
        × ((run (step fl) (in_a_row 3 after (asking a)) (idle c)).collector
            ≡ background_round fl after a c)
  unfolding background_round
  run-alone at after a c =
      (collect-alone at after a c, ap (λ s. s.collector) (round-alone after a c))
