-- ===== src/Collectors/Process/Overlap.antt =====
-- internal/collectors/process.go: the usages of overlapping collections.
use system_monitor_go.Base.{
  answered, ◌≡◌, refl, ap, ◌∙◌, false, some, List, [], ◌∷◌, map, get_elem?, or_else-none, Time,
  is_zero, ok, pos,
}
use system_monitor_go.Base.Floats.{Float64}
use system_monitor_go.Models.Process.{ProcessInfo}
use system_monitor_go.Collectors.Process.{Process, Answers, ProcessCollector, lookup_pid}
use system_monitor_go.Collectors.Process.Report.{Round, duration_of}
use system_monitor_go.Collectors.Process.Collection.{collect_processes, round_of}
use system_monitor_go.Collectors.Process.Usage.{
  expected_usage, last_time, collect_processes-reports, collect_processes-times, usages_since,
}
use system_monitor_go.Collectors.Process.Steps.{Phase, starting, finished, begun, round_since, step}
use system_monitor_go.Collectors.Goroutines.{Action, begin, move, react, run, idle}

-- Between the start of a collection and its loop another one takes place.
abbrev pub between :
    {F : Type 0} → Time → Time → Time → Answers F → Answers F → List (Action (Phase F))
between t u v a b =
    begin (starting a)
    ∷ move t 0
    ∷ begin (starting b)
    ∷ move u 1
    ∷ move u 1
    ∷ move u 1
    ∷ move v 0
    ∷ move v 0
    ∷ move v 0
    ∷ []

module _ (fl : Float64) (t u v : Time) (a b : Answers fl.F) (c : ProcessCollector fl.F)
    (before ps : List (Process fl.F)) where
  -- The collector after the collection in between
  abbrev kept : ProcessCollector fl.F
  kept = record c {
    prev_cpu_times = (collect_processes fl (round_of fl u b c) [] before).0;
    prev_time = u;
  }

  abbrev late_round : Round fl
  late_round = round_since fl t c.prev_time a kept

  between_reply :
      a.processes ≡ ok ps
      → b.processes ≡ ok before
      → get_elem? (run (step fl) (between t u v a b) (idle c)).phases 0
        ≡ some (finished (ok (collect_processes fl late_round [] ps).1))
  unfolding run react step begun
  between_reply h k = rw (h, k) refl

  -- If between the start of a collection, at the time t, and its loop another one takes place, which
  -- lists its processes, and an earlier one has taken place before both, then the first one divides
  -- the CPU times that its processes used since the collection in between by the seconds from the
  -- earlier one to t.
  pub between-usage :
      is_zero c.prev_time ≡ false
      → a.processes ≡ ok ps
      → b.processes ≡ ok before
      → (is : List (ProcessInfo fl.F)) × (get_elem?
            (run (step fl) (between t u v a b) (idle c)).phases
            0
          ≡ some (finished (ok is)))
        × (map (λ i. i.cpu_usage) is
            ≡ map
                (expected_usage fl
                  (answered (pos 1) a.logical_cores)
                  (duration_of fl c.prev_time t)
                  before)
                ps)
  unfolding round_since round_of lookup_pid last_time
  between-usage z h k = (
    (collect_processes fl late_round [] ps).1,
    between_reply h k,
    ap (λ is. map (λ i. i.cpu_usage) is) (collect_processes-reports fl late_round [] ps)
        ∙ usages_since fl late_round before ps z (λ pid.
          collect_processes-times fl (round_of fl u b c) pid [] before
          ∙ or_else-none (last_time pid before)),
  )
