-- ===== src/Collectors/Memory/Overlap.antt =====
-- internal/collectors/memory.go: what overlapping collections report.
use system_monitor_go.Base.{
  Bool, ◌&&◌, ◌≡◌, refl, ◌∙◌, arith, true, false, inl, inr, Bool-cases, Result-cases, none, List,
  All, Time, Text, ok, err, ℤ, ℕ, since_lt,
}
use system_monitor_go.Base.Floats.{Float64}
use system_monitor_go.Config.Settings.{MemoryCollectorSettings}
use system_monitor_go.Models.Memory.{MemoryMetrics}
use system_monitor_go.Collectors.Memory.{
  MemoryCollector, Answers, new_memory_collector, collect_static_info, collect_dynamic_info,
  static_once, keep_static,
}
use system_monitor_go.Collectors.Memory.Cache.{statics, dynamic-statics}
use system_monitor_go.Collectors.Memory.Steps.{
  Phase, checking, asking, copying, storing, finished, checked, after_do, measured, step,
}
use system_monitor_go.Collectors.Goroutines.{
  Action, begin, move, run, idle, Keeps, Starts, run-Holds, All-implies,
}

module _ (fl : Float64) (t : ℤ × ℤ × ℕ × ℕ × ℕ × Text) where
  -- The static part of a collection that gets these answers succeeds and has these fields.
  abbrev pub TellsStatics : Answers fl.F → Type 0
  TellsStatics a = (s : MemoryMetrics fl.F) × (collect_static_info fl a ≡ ok s) × (statics s ≡ t)

  -- A call of `Collect` or a round of the background goroutine with such answers
  abbrev pub Begins : Action (Phase fl.F) → Type 0
  Begins (begin (checking at a)) = TellsStatics a
  Begins (begin (asking a)) = TellsStatics a
  Begins (begin p) = ⊥
  Begins (move now i) = Unit

  -- A reply without an error has these fields.
  abbrev pub Replies : Phase fl.F → Type 0
  Replies (finished (ok m)) = statics m ≡ t
  Replies p = Unit

  -- The static part is not done yet, or it is done and in the cache.
  Once : MemoryCollector fl.F → Type 0
  Once c =
      (c.once_done ≡ true → statics c.cached_info ≡ t)
      × (c.once_done ≡ false → c.static_info_loaded ≡ false)

  After : MemoryCollector fl.F → Phase fl.F → Type 0
  After c (checking at a) = TellsStatics a
  After c (asking a) = TellsStatics a
  After c (copying a) = c.once_done ≡ true
  After c (storing m) = (c.once_done ≡ true) × (statics m ≡ t)
  After c (finished r) = Replies (finished r)

  done_of_loaded :
      (c : MemoryCollector fl.F) (b : Bool)
      → Once c
      → (b && c.static_info_loaded) ≡ true
      → c.once_done ≡ true
  unfolding Once
  done_of_loaded c b i e = elim (Bool-cases c.once_done) [
    | inl d ↦ d
    | inr d ↦ absurd (ground (arith, i.1 d))
  ]

  checked-After :
      (at : Time) (a : Answers fl.F) (c : MemoryCollector fl.F)
      → Once c
      → TellsStatics a
      → After c (checked fl at a c)
  unfolding Once After checked
  checked-After at a c i h =
      elim (Bool-cases (since_lt at c.cached_time c.cache_duration && c.static_info_loaded)) [
        | inl e ↦ rw (e, checked) (i.0 (done_of_loaded c _ i e))
        | inr e ↦ rw (e, checked) h
      ]

  -- `Do` leaves the static part done and in the cache, whoever calls it.
  do_lem :
      (a : Answers fl.F) (c : MemoryCollector fl.F)
      → Once c
      → TellsStatics a
      → ((static_once fl a c).0.once_done ≡ true)
        × (statics (static_once fl a c).0.cached_info ≡ t)
        × ((static_once fl a c).1 ≡ none)
  unfolding Once static_once keep_static
  do_lem a c i (s, e, f) = elim (Bool-cases c.once_done) [
    | inl d ↦ rw (d, static_once) (refl, i.0 d, refl)
    | inr d ↦ rw (d, e, static_once) (refl, f, refl)
  ]

  measured-After :
      (a : Answers fl.F) (c : MemoryCollector fl.F)
      → Once c
      → c.once_done ≡ true
      → After c (measured fl (collect_dynamic_info a c.cached_info))
  unfolding Once After measured
  measured-After a c i h = elim (Result-cases (collect_dynamic_info a c.cached_info)) [
    | inl (m, e) ↦ rw (e, measured) (h, dynamic-statics fl a c.cached_info m e ∙ i.0 h)
    | inr (x, e) ↦ rw (e, measured) tt
  ]

  own_step :
      (now : Time) (p : Phase fl.F) (c : MemoryCollector fl.F)
      → Once c
      → After c p
      → Once (step fl now p c).0 × After (step fl now p c).0 (step fl now p c).1
  unfolding step Once After after_do
  own_step now (checking at a) c i h = (i, checked-After at a c i h)
  own_step now (asking a) c i h =
      let (d, e, f) = do_lem a c i h in ((λ k. e, λ k. absurd (cc (d, k))), rw f d)
  own_step now (copying a) c i h = (i, measured-After a c i h)
  own_step now (storing m) c i (d, e) = ((λ k. e, i.1), e)
  own_step now (finished r) c i h = (i, h)

  -- A phase stays possible while the static part stays done.
  still-After :
      (c d : MemoryCollector fl.F) (q : Phase fl.F)
      → (c.once_done ≡ true → d.once_done ≡ true)
      → After c q
      → After d q
  unfolding After
  still-After c d (checking at a) k h = h
  still-After c d (asking a) k h = h
  still-After c d (copying a) k h = k h
  still-After c d (storing m) k h = (k h.0, h.1)
  still-After c d (finished r) k h = h

  stays_done :
      (now : Time) (p : Phase fl.F) (c : MemoryCollector fl.F)
      → Once c
      → After c p
      → c.once_done ≡ true
      → (step fl now p c).0.once_done ≡ true
  unfolding step After
  stays_done now (checking at a) c i h d = d
  stays_done now (asking a) c i h d = (do_lem a c i h).0
  stays_done now (copying a) c i h d = d
  stays_done now (storing m) c i h d = d
  stays_done now (finished r) c i h d = d

  step-Keeps : Keeps (step fl) Once After
  step-Keeps = record {
    of_own = own_step;
    of_others = λ now p q c i h k. still-After c (step fl now p c).0 q (stays_done now p c i h) k;
  }

  may_start : (a : Action (Phase fl.F)) → Begins a → Starts (step fl) Once After a
  unfolding After
  may_start (begin (checking at a)) h = λ c. h
  may_start (begin (asking a)) h = λ c. h
  may_start (begin (copying a)) h = absurd h
  may_start (begin (storing m)) h = absurd h
  may_start (begin (finished r)) h = absurd h
  may_start (move now i) h = tt

  After-Replies : (c : MemoryCollector fl.F) (p : Phase fl.F) → After c p → Replies p
  unfolding After
  After-Replies c (checking at a) h = tt
  After-Replies c (asking a) h = tt
  After-Replies c (copying a) h = tt
  After-Replies c (storing m) h = tt
  After-Replies c (finished (ok m)) h = h
  After-Replies c (finished (err e)) h = tt

  -- However many calls of `Collect` and rounds of the background goroutine overlap, in any order of
  -- their steps, if all their static parts succeed with the same totals and hardware data, then every
  -- reply without an error has these.
  pub run-statics :
      (cfg : MemoryCollectorSettings) (acts : List (Action (Phase fl.F)))
      → All Begins acts
      → All Replies (run (step fl) acts (idle (new_memory_collector fl cfg))).phases
  unfolding new_memory_collector Once
  run-statics cfg acts h =
      let start = idle (new_memory_collector fl cfg) in
      let (i, j) =
        run-Holds (step fl) Once After acts start step-Keeps (All-implies Begins _ acts may_start h)
          ((λ e. absurd (cc), λ e. refl), tt) in
      All-implies _ Replies (run (step fl) acts start).phases
        (After-Replies (run (step fl) acts start).collector) j
