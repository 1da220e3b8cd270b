-- ===== src/Collectors/Process/Usage.antt =====
-- internal/collectors/process.go: the reports of a collection against the processes it lists, and the
-- usages of one collection against the times of the one before.
use system_monitor_go.Base.{
  answered, ℤ, ◌<◌, ◌&&◌, ◌≡◌, refl, sym, ap, ◌∙◌, arith, true, false, Bool, Option, none, some,
  List, [], ◌∷◌, map, or_else, or_else_assoc, or_else-none, or_else_if, Result-cases, inl, inr,
  Text, Time, is_zero, since_lt, Result, ok, err, pos, length, length-map, ltb, eq_ℤ, if◌then◌else◌,
}
use mathlib.Core.Path.{ap₂}
use system_monitor_go.Base.Floats.{Float64}
use system_monitor_go.Models.Process.{ProcessInfo}
use system_monitor_go.Collectors.Process.{Process, Answers, ProcessCollector, lookup_pid}
use system_monitor_go.Collectors.Process.Report.{
  Round, cpu_time_of, duration_of, usage_between, usage_since, usage_of, report,
}
use system_monitor_go.Collectors.Process.Collection.{
  note_time, collect_processes, round_of, collect_process_metrics, store, collect,
}

known_time : {F : Type 0} → ℤ → ℤ → Result Text F → Option F
unfolding eq_ℤ
known_time q pid (ok t) = if eq_ℤ q pid then some t else none
known_time q pid (err e) = none

-- The time of the last process with this number whose times are known.
unfoldable pub last_time : {F : Type 0} → ℤ → List (Process F) → Option F
unfolding or_else known_time
last_time pid [] = none
last_time pid (p ∷ ps) = or_else (last_time pid ps) (known_time p.pid pid p.times)

module _ (fl : Float64) where
  pub collect_processes-reports :
      (r : Round fl) (times : List (ℤ × fl.F)) (ps : List (Process fl.F))
      → (collect_processes fl r times ps).1 ≡ map (report fl r) ps
  unfolding collect_processes
  collect_processes-reports r times [] = refl
  collect_processes-reports r times (p ∷ ps) =
      ap (λ is. report fl r p ∷ is) (collect_processes-reports r (note_time p times) ps)

  note_time_lem :
      (pid : ℤ) (p : Process fl.F) (ps : List (Process fl.F)) (times : List (ℤ × fl.F))
      → or_else (last_time pid ps) (lookup_pid pid (note_time p times))
        ≡ or_else (last_time pid (p ∷ ps)) (lookup_pid pid times)
  unfolding note_time last_time lookup_pid known_time
  note_time_lem pid p ps times = elim (Result-cases p.times) [
    | inl (t, e) ↦ rw e (
        ap (λ o. or_else (last_time pid ps) o)
          (or_else_if (eq_ℤ p.pid pid) t (lookup_pid pid times))
        ∙ sym (or_else_assoc (last_time pid ps) _ (lookup_pid pid times)))
    | inr (e, f) ↦
        rw f (ap (λ o. or_else o (lookup_pid pid times)) (sym (or_else-none (last_time pid ps))))
  ]

  pub collect_processes-times :
      (r : Round fl) (pid : ℤ) (times : List (ℤ × fl.F)) (ps : List (Process fl.F))
      → lookup_pid pid (collect_processes fl r times ps).0
        ≡ or_else (last_time pid ps) (lookup_pid pid times)
  unfolding collect_processes last_time or_else
  collect_processes-times r pid times [] = refl
  collect_processes-times r pid times (p ∷ ps) =
      collect_processes-times r pid (note_time p times) ps ∙ note_time_lem pid p ps times

  listed :
      (now : Time) (a : Answers fl.F) (c : ProcessCollector fl.F) (ps : List (Process fl.F))
      → a.processes ≡ ok ps
      → collect_process_metrics fl now a c ≡ (
        record c {
          prev_cpu_times = (collect_processes fl (round_of fl now a c) [] ps).0;
          prev_time = now;
        },
        ok (map (report fl (round_of fl now a c)) ps),
      )
  unfolding collect_process_metrics
  listed now a c ps h =
      rw (h, collect_process_metrics)
        (ap
          (λ is. (
            record c {
              prev_cpu_times = (collect_processes fl (round_of fl now a c) [] ps).0;
              prev_time = now;
            },
            ok is,
          ))
          (collect_processes-reports (round_of fl now a c) [] ps))

  -- What a process with these times used since a collection that listed `before`.
  unfoldable pub expected_usage : ℤ → fl.F → List (Process fl.F) → Process fl.F → fl.F
  unfolding last_time usage_between cpu_time_of
  expected_usage cores duration before p = elim (last_time p.pid before) [
    | none ↦ fl.of_nat 0
    | some t ↦ usage_between fl cores duration t (cpu_time_of fl p.times)
  ]

  usage_since_lem :
      (r : Round fl) (o : Option fl.F) (time : fl.F)
      → usage_since fl r o time ≡ elim o [
        | none ↦ fl.of_nat 0
        | some t ↦ usage_between fl r.logical_cores r.duration t time
      ]
  unfolding usage_since
  usage_since_lem r none time = refl
  usage_since_lem r (some t) time = refl

  pub usages_since :
      (r : Round fl) (before ps : List (Process fl.F))
      → r.first ≡ false
      → ((pid : ℤ) → lookup_pid pid r.prev_cpu_times ≡ last_time pid before)
      → map (λ i. i.cpu_usage) (map (report fl r) ps)
        ≡ map (expected_usage r.logical_cores r.duration before) ps
  unfolding report usage_of usage_since expected_usage
  usages_since r before [] f h = refl
  usages_since r before (p ∷ ps) f h =
      ap₂ (λ u us. u ∷ us)
        (rw (f, h p.pid) (usage_since_lem r (last_time p.pid before) (cpu_time_of fl p.times)))
        (usages_since r before ps f h)

  pids_of :
      (r : Round fl) (ps : List (Process fl.F))
      → map (λ i. i.pid) (map (report fl r) ps) ≡ map (λ p. p.pid) ps
  unfolding report
  pids_of r [] = refl
  pids_of r (p ∷ ps) = ap (λ is. p.pid ∷ is) (pids_of r ps)

  -- Of two collections in a row that list the processes, of which the first is not at the zero time,
  -- the second reports for every process the usage between the time the first one learned last for
  -- its number and the time that the second learns, over the seconds between the two and the cores
  -- of the second, and 0 where the first one learned no time.
  pub collect_twice-usage :
      (t u : Time) (a b : Answers fl.F) (c : ProcessCollector fl.F)
      (before ps : List (Process fl.F))
      → is_zero t ≡ false
      → a.processes ≡ ok before
      → b.processes ≡ ok ps
      → (is : List (ProcessInfo fl.F)) × ((collect_process_metrics fl u b
            (collect_process_metrics fl t a c).0).1
          ≡ ok is)
        × (map (λ i. i.cpu_usage) is
            ≡ map
                (expected_usage (answered (pos 1) b.logical_cores) (duration_of fl t u) before)
                ps)
  unfolding round_of lookup_pid last_time
  collect_twice-usage t u a b c before ps z h k =
      let times : List (ℤ × fl.F) = (collect_processes fl (round_of fl t a c) [] before).0 in
      let d : ProcessCollector fl.F = record c { prev_cpu_times = times; prev_time = t } in
      (
        map (report fl (round_of fl u b d)) ps,
        ap (λ o. (collect_process_metrics fl u b o.0).1) (listed t a c before h)
            ∙ ap (λ o. o.1) (listed u b d ps k),
        usages_since (round_of fl u b d) before ps z (λ pid.
            collect_processes-times (round_of fl t a c) pid [] before
            ∙ or_else-none (last_time pid before)),
      )

  is_valid : Time → ProcessCollector fl.F → Bool
  is_valid at c = since_lt at c.cached_time c.cache_duration && ltb 0 (length c.cached_metrics)

  collect-hit :
      (at now after : Time) (a : Answers fl.F) (c : ProcessCollector fl.F)
      → is_valid at c ≡ true
      → collect fl at now after a c ≡ (c, ok c.cached_metrics)
  unfolding collect is_valid
  collect-hit at now after a c h = rw (h, collect)

  collect-miss :
      (at now after : Time) (a : Answers fl.F) (c : ProcessCollector fl.F)
      (ps : List (Process fl.F))
      → is_valid at c ≡ false
      → a.processes ≡ ok ps
      → collect fl at now after a c ≡ (
        record c {
          prev_cpu_times = (collect_processes fl (round_of fl now a c) [] ps).0;
          prev_time = now;
          cached_metrics = map (report fl (round_of fl now a c)) ps;
          cached_time = after;
        },
        ok (map (report fl (round_of fl now a c)) ps),
      )
  unfolding collect store is_valid
  collect-miss at now after a c ps f h =
      rw (f, collect) (ap (λ o. (store fl after o, o.1)) (listed now a c ps h))

  -- A `Collect` without a valid cache that lists at least one process returns one report per
  -- process, in their order, and a `Collect` before the cache is outdated returns the same reports,
  -- whatever the processes are then.
  pub collect-again :
      (at now after : Time) (a : Answers fl.F) (c : ProcessCollector fl.F)
      (ps : List (Process fl.F)) (at' now' after' : Time) (b : Answers fl.F)
      → (since_lt at c.cached_time c.cache_duration && ltb 0 (length c.cached_metrics)) ≡ false
      → a.processes ≡ ok ps
      → 0 < length ps
      → since_lt at' after c.cache_duration ≡ true
      → (is : List (ProcessInfo fl.F)) × ((collect fl at now after a c).1 ≡ ok is)
        × (map (λ i. i.pid) is ≡ map (λ p. p.pid) ps)
        × ((collect fl at' now' after' b (collect fl at now after a c).0).1 ≡ ok is)
  unfolding is_valid
  collect-again at now after a c ps at' now' after' b f h l v =
      let r : Round fl = round_of fl now a c in
      let e = collect-miss at now after a c ps f h in
      (
        map (report fl r) ps,
        ap (λ o. o.1) e,
        pids_of r ps,
        ap (λ o. (collect fl at' now' after' b o.0).1) e
            ∙ ap (λ o. o.1)
                (collect-hit at' now' after' b _ (ground (arith, length-map ps (report fl r)))),
      )
