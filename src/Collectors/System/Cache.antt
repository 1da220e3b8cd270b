-- ===== src/Collectors/System/Cache.antt =====
-- internal/collectors/system.go: what the cache of SystemCollector keeps, whatever calls come.
use system_monitor_go.Base.{
  ◌≤◌, true, false, ◌≡◌, refl, sym, ap, ◌∙◌, arith, inl, inr, List, [], ◌∷◌, Text, Time, ok, err,
  if◌then◌else◌, since_lt, Result-cases, Bool-cases, max_duration, never_valid,
}
use mathlib.Core.Path.{subst}
use system_monitor_go.Config.Settings.{SystemCollectorSettings}
use system_monitor_go.Models.Host.{SystemInfo}
use system_monitor_go.Collectors.Master.{blank_system}
use system_monitor_go.Collectors.System.{
  SystemCollector, Answers, new_system_collector, collect_static_info, collect_dynamic_info,
  after_static, collect_system_info, store, collect, background_round,
}

-- A call of `Collect`, or a round of the background goroutine, with the answers that it gets.
pub data Event : Type 0 where
  collecting : Time → Time → Answers → Event
  refreshing : Time → Answers → Event

abbrev pub answers : Event → Answers
answers (collecting now after a) = a
answers (refreshing after a) = a

-- The clock is past the longest duration, 292 years, after its zero.
abbrev pub IsLate : Event → Type 0
IsLate (collecting now after a) = max_duration ≤ now
IsLate (refreshing after a) = Unit

-- The fields that do not change while the machine is up.
abbrev pub statics : SystemInfo → Text × Text × Text × Text × Text × Text × Text
statics i = (
  i.hostname, i.os_name, i.platform, i.platform_family, i.os_version, i.os_architecture,
  i.os_kernel_version,
)

unfoldable pub react : Event → SystemCollector → SystemCollector
unfolding collect background_round
react (collecting now after a) c = (collect now after a c).0
react (refreshing after a) c = background_round after a c

unfoldable pub run : List Event → SystemCollector → SystemCollector
run [] c = c
run (e ∷ es) c = run es (react e c)

-- The static part counts as loaded, and the cache has these fields.
pub record Settled (t : Text × Text × Text × Text × Text × Text × Text) (c : SystemCollector)
    : Type 0 where
  pub flag : c.static_info_loaded ≡ true
  pub same : statics c.cached_info ≡ t

pub dynamic-statics :
    (a : Answers) (m n : SystemInfo) → collect_dynamic_info a m ≡ ok n → statics n ≡ statics m
unfolding collect_dynamic_info
dynamic-statics a m n h = ground arith

info_loaded :
    (a : Answers) (c : SystemCollector)
    → c.static_info_loaded ≡ true
    → collect_system_info a c ≡ after_static a c (ok c.cached_info)
unfolding collect_system_info
info_loaded a c h =
    ap (λ b. after_static a c (if b then ok c.cached_info else collect_static_info a)) h

-- Storing after the static part keeps its fields, if the variable part fails only on a cache that
-- has them.
stored-Settled :
    {t : Text × Text × Text × Text × Text × Text × Text} (now : Time) (a : Answers)
    (c : SystemCollector) (i : SystemInfo)
    → statics i ≡ t
    → statics c.cached_info ≡ t
    → Settled t (store now (after_static a c (ok i)))
unfolding store after_static
stored-Settled {t} now a c i h k = elim (Result-cases (collect_dynamic_info a i)) [
  | inl (m, e) ↦
      subst (λ r. Settled t (store now (record c { static_info_loaded = true }, r))) (sym e)
        (record { flag = refl; same = dynamic-statics a i m e ∙ h })
  | inr (x, e) ↦
      subst (λ r. Settled t (store now (record c { static_info_loaded = true }, r))) (sym e)
        (record { flag = refl; same = k })
]

collect_hit :
    (now after : Time) (a : Answers) (c : SystemCollector)
    → since_lt now c.cached_time c.cache_duration ≡ true
    → collect now after a c ≡ (c, ok c.cached_info)
unfolding collect
collect_hit now after a c e = rw e

collect_miss :
    (now after : Time) (a : Answers) (c : SystemCollector)
    → since_lt now c.cached_time c.cache_duration ≡ false
    → collect now after a c ≡ (store after (collect_system_info a c), (collect_system_info a c).1)
unfolding collect
collect_miss now after a c e = rw e

store-Settled :
    {t : Text × Text × Text × Text × Text × Text × Text} (now : Time) (a : Answers)
    (c : SystemCollector)
    → Settled t c
    → Settled t (store now (collect_system_info a c))
store-Settled {t} now a c s =
    subst (λ p. Settled t (store now p)) (sym (info_loaded a c s.flag))
      (stored-Settled now a c c.cached_info s.same s.same)

react-Settled :
    {t : Text × Text × Text × Text × Text × Text × Text} (e : Event) (c : SystemCollector)
    → Settled t c
    → Settled t (react e c)
unfolding react background_round
react-Settled {t} (collecting now after a) c s =
    elim (Bool-cases (since_lt now c.cached_time c.cache_duration)) [
      | inl e ↦ subst (λ r. Settled t r.0) (sym (collect_hit now after a c e)) s
      | inr e ↦
          subst (λ r. Settled t r.0) (sym (collect_miss now after a c e))
            (store-Settled after a c s)
    ]
react-Settled (refreshing after a) c s = store-Settled after a c s

pub run-Settled :
    {t : Text × Text × Text × Text × Text × Text × Text} (es : List Event) (c : SystemCollector)
    → Settled t c
    → Settled t (run es c)
unfolding run
run-Settled [] c s = s
run-Settled (e ∷ es) c s = run-Settled es (react e c) (react-Settled e c s)

-- Every reply of a settled collector has the static fields of its cache.
pub collect-statics :
    {t : Text × Text × Text × Text × Text × Text × Text} (now after : Time) (a : Answers)
    (c : SystemCollector) (i : SystemInfo)
    → Settled t c
    → (collect now after a c).1 ≡ ok i
    → statics i ≡ t
unfolding after_static
collect-statics now after a c i s h =
    elim (Bool-cases (since_lt now c.cached_time c.cache_duration)) [
      | inl e ↦
          let k : c.cached_info ≡ i = cc (collect_hit now after a c e, h) in
          ap statics (sym k) ∙ s.same
      | inr e ↦
          dynamic-statics a c.cached_info i (
            sym (
              ap (λ r. r.1)
                (collect_miss now after a c e
                  ∙ ap (λ p. (store after p, p.1)) (info_loaded a c s.flag)))
            ∙ h)
          ∙ s.same
    ]

react_new :
    (cfg : SystemCollectorSettings) (e : Event)
    → IsLate e
    → (now : Time) × (react e (new_system_collector cfg)
        ≡ store now
            (after_static (answers e) (new_system_collector cfg) (collect_static_info (answers e))))
unfolding react background_round new_system_collector collect_system_info
react_new cfg (collecting now after a) late = (
  after,
  ap (λ r. r.0)
      (collect_miss now after a (new_system_collector cfg)
        (never_valid now cfg.cache_duration_seconds late)),
)
react_new cfg (refreshing after a) late = (after, refl)

first-Settled :
    {t : Text × Text × Text × Text × Text × Text × Text} (cfg : SystemCollectorSettings) (e : Event)
    (es : List Event)
    → IsLate e
    → ((now : Time)
        → Settled t (
            store now (
              after_static
                (answers e)
                (new_system_collector cfg)
                (collect_static_info (answers e)))))
    → Settled t (run (e ∷ es) (new_system_collector cfg))
unfolding run
first-Settled {t} cfg e es late s =
    let (now, p) = react_new cfg e late in
    run-Settled es _ (subst (λ c. Settled t c) (sym p) (s now))

-- If the first collection, on a clock that is past the longest duration after its zero, gives the
-- system's information, then every reply of `Collect`, after any further calls and rounds, has the
-- names and versions of that first collection.
pub collect-first_names :
    (cfg : SystemCollectorSettings) (e : Event) (es : List Event) (now after : Time) (a : Answers)
    (s n i : SystemInfo)
    → IsLate e
    → collect_static_info (answers e) ≡ ok s
    → collect_dynamic_info (answers e) s ≡ ok n
    → (collect now after a (run (e ∷ es) (new_system_collector cfg))).1 ≡ ok i
    → statics i ≡ statics s
unfolding store after_static
collect-first_names cfg e es now after a s n i late h d k =
    collect-statics now after a _ i
      (first-Settled cfg e es late
        (λ t. rw (h, d) (record { flag = refl; same = dynamic-statics (answers e) s n d })))
      k

-- If the static part of the first collection succeeds and its variable part fails, on a clock that is
-- past the longest duration after its zero, then every later reply of `Collect`, after any further
-- calls and rounds, has no host name, no system and no version.
pub collect-lost_names :
    (cfg : SystemCollectorSettings) (e : Event) (es : List Event) (now after : Time) (a : Answers)
    (s i : SystemInfo) (x : Text)
    → IsLate e
    → collect_static_info (answers e) ≡ ok s
    → collect_dynamic_info (answers e) s ≡ err x
    → (collect now after a (run (e ∷ es) (new_system_collector cfg))).1 ≡ ok i
    → statics i ≡ statics blank_system
unfolding store after_static new_system_collector
collect-lost_names cfg e es now after a s i x late h d k =
    collect-statics now after a _ i
      (first-Settled cfg e es late (λ t. rw (h, d) (record { flag = refl; same = refl }))) k
