-- ===== src/Collectors/System/Alone.antt =====
-- internal/collectors/system.go: collections that do not overlap take the steps of one at a time.
use system_monitor_go.Base.{
  ◌≡◌, refl, ap, inl, inr, Bool-cases, Result-cases, [], ◌∷◌, Time, Text, Result, since_lt,
}
use system_monitor_go.Models.Host.{SystemInfo}
use system_monitor_go.Collectors.System.{
  SystemCollector, Answers, collect_static_info, collect_dynamic_info, after_static,
  collect_system_info, store, collect, background_round,
}
use system_monitor_go.Collectors.System.Steps.{
  Phase, checking, asking, finished, checked, with_static, measured, asked, step,
}
use system_monitor_go.Collectors.Goroutines.{Shared, react, run, idle, in_a_row}

-- Its end, with what a collection gives
abbrev pub ended : SystemCollector × Result Text SystemInfo → Shared SystemCollector Phase
ended r = record { collector = r.0; phases = finished r.1 ∷ [] }

round-alone :
    (after : Time) (a : Answers) (c : SystemCollector)
    → run step (in_a_row 3 after (asking a)) (idle c)
      ≡ ended (store after (collect_system_info a c), (collect_system_info a c).1)
unfolding run react step asked with_static measured store collect_system_info after_static
round-alone after a c = elim (Bool-cases c.static_info_loaded) [
  | inl e ↦ elim (Result-cases (collect_dynamic_info a c.cached_info)) [
    | inl (n, f) ↦ rw (e, f) refl
    | inr (x, f) ↦ rw (e, f) refl
  ]
  | inr e ↦ elim (Result-cases (collect_static_info a)) [
    | inl (s, f) ↦ elim (Result-cases (collect_dynamic_info a s)) [
      | inl (n, g) ↦ rw (e, f, g) refl
      | inr (x, g) ↦ rw (e, f, g) refl
    ]
    | inr (x, f) ↦ rw (e, f) refl
  ]
]

collect-alone :
    (at after : Time) (a : Answers) (c : SystemCollector)
    → run step (in_a_row 4 after (checking at a)) (idle c) ≡ ended (collect at after a c)
unfolding run react step checked collect
collect-alone at after a c = elim (Bool-cases (since_lt at c.cached_time c.cache_duration)) [
  | inl e ↦ rw (e, collect) refl
  | inr e ↦ rw (e, collect) (round-alone after a c)
]

-- A call of `Collect` and a round of the background goroutine that take their steps without another
-- goroutine between them do to the collector, and reply, what they do as one step; the reply of a
-- round is not used.
pub run-alone :
    (at after : Time) (a : Answers) (c : SystemCollector)
    → (run step (in_a_row 4 after (checking at a)) (idle c) ≡ ended (collect at after a c))
      × ((run step (in_a_row 3 after (asking a)) (idle c)).collector ≡ background_round after a c)
unfolding background_round
run-alone at after a c = (collect-alone at after a c, ap (λ s. s.collector) (round-alone after a c))
