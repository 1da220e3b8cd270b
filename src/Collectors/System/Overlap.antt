-- ===== src/Collectors/System/Overlap.antt =====
-- internal/collectors/system.go: what overlapping collections report, and what they may lose.
use system_monitor_go.Base.{
  ◌≤◌, ◌≡◌, refl, sym, true, ◌⊎◌, inl, inr, Bool-cases, Result-cases, List, [], ◌∷◌, All, Time,
  Text, ok, err, since_lt, max_duration, never_valid,
}
use mathlib.Core.Path.{subst}
use system_monitor_go.Config.Settings.{SystemCollectorSettings}
use system_monitor_go.Models.Host.{SystemInfo}
use system_monitor_go.Collectors.Master.{blank_system}
use system_monitor_go.Collectors.System.{
  SystemCollector, Answers, new_system_collector, collect_static_info, collect_dynamic_info,
  collect,
}
use system_monitor_go.Collectors.System.Cache as Cache
use system_monitor_go.Collectors.System.Cache.{
  Event, statics, dynamic-statics, Settled, run-Settled, collect-statics,
}
use system_monitor_go.Collectors.System.Steps.{
  Phase, checking, asking, marking, storing, finished, checked, with_static, measured, asked, step,
}
use system_monitor_go.Collectors.Goroutines.{
  Action, begin, move, react, run, idle, Keeps, Starts, run-Holds, All-implies,
}

module _ (t : Text × Text × Text × Text × Text × Text × Text) where
  -- The static part of a collection that gets these answers has these fields, if it succeeds.
  abbrev pub TellsStatics : Answers → Type 0
  TellsStatics a = (s : SystemInfo) → collect_static_info a ≡ ok s → statics s ≡ t

  -- A call of `Collect` or a round of the background goroutine with such answers
  abbrev pub Begins : Action Phase → Type 0
  Begins (begin (checking at a)) = TellsStatics a
  Begins (begin (asking a)) = TellsStatics a
  Begins (begin p) = ⊥
  Begins (move now i) = Unit

  abbrev pub AllOrNone : SystemInfo → Type 0
  AllOrNone i = (statics i ≡ t) ⊎ (statics i ≡ statics blank_system)

  abbrev pub Replies : Phase → Type 0
  Replies (finished (ok i)) = AllOrNone i
  Replies p = Unit

  Cached : SystemCollector → Type 0
  Cached c = AllOrNone c.cached_info

  After : SystemCollector → Phase → Type 0
  After c (checking at a) = TellsStatics a
  After c (asking a) = TellsStatics a
  After c (marking a s) = statics s ≡ t
  After c (storing i) = AllOrNone i
  After c (finished r) = Replies (finished r)

  measured-After :
      (c : SystemCollector) (a : Answers) (i : SystemInfo)
      → AllOrNone i
      → After c (measured (collect_dynamic_info a i))
  unfolding After measured
  measured-After c a i h = elim (Result-cases (collect_dynamic_info a i)) [
    | inl (n, e) ↦
        rw (e, measured)
          (subst (λ u. (u ≡ t) ⊎ (u ≡ statics blank_system)) (sym (dynamic-statics a i n e)) h)
    | inr (x, e) ↦ rw (e, measured) tt
  ]

  asked-After :
      (a : Answers) (c : SystemCollector) → Cached c → TellsStatics a → After c (asked a c)
  unfolding Cached After asked with_static
  asked-After a c i h = elim (Bool-cases c.static_info_loaded) [
    | inl e ↦ rw (e, asked) (measured-After c a c.cached_info i)
    | inr e ↦
        rw (e, asked)
          (elim (Result-cases (collect_static_info a)) [
            | inl (s, f) ↦ rw (f, with_static) (h s f)
            | inr (x, f) ↦ rw (f, with_static) tt
          ])
  ]

  own_step :
      (now : Time) (p : Phase) (c : SystemCollector)
      → Cached c
      → After c p
      → Cached (step now p c).0 × After (step now p c).0 (step now p c).1
  unfolding step Cached After checked
  own_step now (checking at a) c i h =
      elim (Bool-cases (since_lt at c.cached_time c.cache_duration)) [
        | inl e ↦ rw (e, checked) (i, i)
        | inr e ↦ rw (e, checked) (i, h)
      ]
  own_step now (asking a) c i h = (i, asked-After a c i h)
  own_step now (marking a s) c i h =
      (i, measured-After (record c { static_info_loaded = true }) a s (inl h))
  own_step now (storing n) c i h = (h, h)
  own_step now (finished r) c i h = (i, h)

  still-After : (c d : SystemCollector) (q : Phase) → After c q → After d q
  unfolding After
  still-After c d (checking at a) h = h
  still-After c d (asking a) h = h
  still-After c d (marking a s) h = h
  still-After c d (storing i) h = h
  still-After c d (finished r) h = h

  step-Keeps : Keeps step Cached After
  step-Keeps = record {
    of_own = own_step;
    of_others = λ now p q c i h k. still-After c (step now p c).0 q k;
  }

  may_start : (a : Action Phase) → Begins a → Starts step Cached After a
  unfolding After
  may_start (begin (checking at a)) h = λ c. h
  may_start (begin (asking a)) h = λ c. h
  may_start (begin (marking a s)) h = absurd h
  may_start (begin (storing i)) h = absurd h
  may_start (begin (finished r)) h = absurd h
  may_start (move now i) h = tt

  After-Replies : (c : SystemCollector) (p : Phase) → After c p → Replies p
  unfolding After
  After-Replies c (checking at a) h = tt
  After-Replies c (asking a) h = tt
  After-Replies c (marking a s) h = tt
  After-Replies c (storing i) h = tt
  After-Replies c (finished (ok i)) h = h
  After-Replies c (finished (err e)) h = tt

  -- However many calls of `Collect` and rounds of the background goroutine overlap, in any order of
  -- their steps, if all static parts that succeed have the same names and versions, then every reply
  -- without an error has all of these, or none.
  pub run-names :
      (cfg : SystemCollectorSettings) (acts : List (Action Phase))
      → All Begins acts
      → All Replies (run step acts (idle (new_system_collector cfg))).phases
  unfolding new_system_collector Cached
  run-names cfg acts h =
      let start = idle (new_system_collector cfg) in
      let (i, j) =
        run-Holds step Cached After acts start step-Keeps (All-implies Begins _ acts may_start h)
          (inr refl, tt) in
      All-implies _ Replies (run step acts start).phases
        (After-Replies (run step acts start).collector) j

-- A round of the background goroutine says that the static part is loaded, a `Collect` then copies the
-- cache, which does not have it yet, and stores last.
abbrev pub overlap : Time → Time → Time → Answers → Answers → List (Action Phase)
overlap at stored after a b =
    begin (asking a)
    ∷ move at 0
    ∷ move at 0
    ∷ begin (checking at b)
    ∷ move at 1
    ∷ move at 1
    ∷ move stored 0
    ∷ move after 1
    ∷ []

overlapped :
    (cfg : SystemCollectorSettings) (at stored after : Time) (a b : Answers) (s n m : SystemInfo)
    → max_duration ≤ at
    → collect_static_info a ≡ ok s
    → collect_dynamic_info a s ≡ ok n
    → collect_dynamic_info b blank_system ≡ ok m
    → (run step (overlap at stored after a b) (idle (new_system_collector cfg))).collector
      ≡ record (new_system_collector cfg) {
        static_info_loaded = true;
        cached_info = m;
        cached_time = after;
      }
unfolding run react step asked checked with_static measured new_system_collector
overlapped cfg at stored after a b s n m late h d k =
    let miss = never_valid at cfg.cache_duration_seconds late in rw (h, d, miss, k) refl

-- If a round of the background goroutine and a `Collect` overlap in this way at the start, on a clock
-- that is past the longest duration after its zero, and all that they ask is answered, then every
-- later reply of `Collect`, after any further calls and rounds, has no host name, no system and no
-- version.
pub overlap-lost_names :
    (cfg : SystemCollectorSettings) (at stored after : Time) (a b : Answers) (s n m : SystemInfo)
    (es : List Event) (now later : Time) (d : Answers) (i : SystemInfo)
    → max_duration ≤ at
    → collect_static_info a ≡ ok s
    → collect_dynamic_info a s ≡ ok n
    → collect_dynamic_info b blank_system ≡ ok m
    → (collect now later d (
        Cache.run es
          (run step (overlap at stored after a b) (idle (new_system_collector cfg))).collector)).1
      ≡ ok i
    → statics i ≡ statics blank_system
overlap-lost_names cfg at stored after a b s n m es now later d i late h k l e =
    collect-statics now later d _ i
      (run-Settled es _ (
        subst (λ c. Settled (statics blank_system) c)
          (sym (overlapped cfg at stored after a b s n m late h k l))
          (record { flag = refl; same = dynamic-statics b blank_system m l })))
      e
