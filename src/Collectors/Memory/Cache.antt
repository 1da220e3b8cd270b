-- ===== src/Collectors/Memory/Cache.antt =====
-- internal/collectors/memory.go: what the cache of MemoryCollector keeps, whatever calls come.
use system_monitor_go.Base.{
  ℕ, ◌&&◌, inl, inr, Option, none, some, Bool, true, false, ◌≡◌, refl, sym, ap, ◌∙◌, arith, List,
  [], ◌∷◌, Text, Time, ok, err, ℤ, since_lt, Result-cases, Bool-cases,
}
use mathlib.Core.Path.{subst}
use system_monitor_go.Base.Floats.{Float64}
use system_monitor_go.Config.Settings.{MemoryCollectorSettings}
use system_monitor_go.Models.Memory.{MemoryMetrics}
use system_monitor_go.Collectors.Master.{blank_memory}
use system_monitor_go.Collectors.Memory.{
  MemoryCollector, Answers, new_memory_collector, collect_static_info, collect_dynamic_info,
  static_once, after_once, collect_memory_info, store, collect, background_round, keep_static,
}

-- A call of `Collect`, or a round of the background goroutine, with the answers that it gets.
pub data Event (F : Type 0) : Type 0 where
  collecting : Time → Time → Answers F → Event F
  refreshing : Time → Answers F → Event F

-- The fields that do not change while the machine is up.
abbrev pub statics : {F : Type 0} → MemoryMetrics F → ℤ × ℤ × ℕ × ℕ × ℕ × Text
statics m =
    (m.total, m.swap_total, m.data_rate, m.using_slot_count, m.total_slot_count, m.form_factor)

and_false : (b : Bool) → (b && false) ≡ false
and_false true = refl
and_false false = refl

module _ (fl : Float64) where
  unfoldable pub react : Event fl.F → MemoryCollector fl.F → MemoryCollector fl.F
  unfolding collect background_round
  react (collecting now after a) c = (collect fl now after a c).0
  react (refreshing after a) c = background_round fl after a c

  unfoldable pub run : List (Event fl.F) → MemoryCollector fl.F → MemoryCollector fl.F
  run [] c = c
  run (e ∷ es) c = run es (react e c)

  -- The static part is over, with these fields and this flag in the cache.
  record Settled (t : ℤ × ℤ × ℕ × ℕ × ℕ × Text) (loaded : Bool) (c : MemoryCollector fl.F)
      : Type 0 where
    done : c.once_done ≡ true
    flag : c.static_info_loaded ≡ loaded
    same : statics c.cached_info ≡ t

  pub dynamic-statics :
      (a : Answers fl.F) (m n : MemoryMetrics fl.F)
      → collect_dynamic_info a m ≡ ok n
      → statics n ≡ statics m
  unfolding collect_dynamic_info
  dynamic-statics a m n h = ground arith

  once_done :
      (a : Answers fl.F) (c : MemoryCollector fl.F)
      → c.once_done ≡ true
      → static_once fl a c ≡ (c, none)
  unfolding static_once
  once_done a c h = rw h

  info_done :
      (a : Answers fl.F) (c : MemoryCollector fl.F)
      → c.once_done ≡ true
      → collect_memory_info fl a c ≡ (c, collect_dynamic_info a c.cached_info)
  unfolding collect_memory_info after_once
  info_done a c h = ap (after_once a) (once_done a c h)

  -- Storing the outcome of a collection over a settled cache leaves it settled.
  store-Settled :
      {t : ℤ × ℤ × ℕ × ℕ × ℕ × Text} {b : Bool} (now : Time) (a : Answers fl.F)
      (c : MemoryCollector fl.F)
      → Settled t b c
      → Settled t b (store now (collect_memory_info fl a c))
  unfolding store
  store-Settled {t} {b} now a c s = elim (Result-cases (collect_dynamic_info a c.cached_info)) [
    | inl (m, e) ↦
        subst (λ r. Settled t b (store now r)) (sym (info_done a c s.done ∙ ap (λ r. (c, r)) e))
          (record {
            done = s.done;
            flag = s.flag;
            same = dynamic-statics a c.cached_info m e ∙ s.same;
          })
    | inr (x, e) ↦
        subst (λ r. Settled t b (store now r)) (sym (info_done a c s.done ∙ ap (λ r. (c, r)) e)) s
  ]

  react-Settled :
      {t : ℤ × ℤ × ℕ × ℕ × ℕ × Text} {b : Bool} (e : Event fl.F) (c : MemoryCollector fl.F)
      → Settled t b c
      → Settled t b (react e c)
  unfolding react collect background_round
  react-Settled {t} {b} (collecting now after a) c s =
      elim (Bool-cases (since_lt now c.cached_time c.cache_duration && c.static_info_loaded)) [
        | inl e ↦ rw (e, react, collect) s
        | inr e ↦ rw (e, react, collect) (store-Settled after a c s)
      ]
  react-Settled (refreshing after a) c s = store-Settled after a c s

  run-Settled :
      {t : ℤ × ℤ × ℕ × ℕ × ℕ × Text} {b : Bool} (es : List (Event fl.F)) (c : MemoryCollector fl.F)
      → Settled t b c
      → Settled t b (run es c)
  unfolding run
  run-Settled [] c s = s
  run-Settled (e ∷ es) c s = run-Settled es (react e c) (react-Settled e c s)

  abbrev fresh : Time → MemoryCollector fl.F → Bool
  fresh now c = since_lt now c.cached_time c.cache_duration && c.static_info_loaded

  collect_hit :
      (now after : Time) (a : Answers fl.F) (c : MemoryCollector fl.F)
      → fresh now c ≡ true
      → collect fl now after a c ≡ (c, ok c.cached_info)
  unfolding collect
  collect_hit now after a c e = rw e

  collect_miss :
      (now after : Time) (a : Answers fl.F) (c : MemoryCollector fl.F)
      → fresh now c ≡ false
      → collect fl now after a c
        ≡ (store after (collect_memory_info fl a c), (collect_memory_info fl a c).1)
  unfolding collect
  collect_miss now after a c e = rw e

  -- Every reply of a settled collector has the static fields of its cache.
  collect-statics :
      {t : ℤ × ℤ × ℕ × ℕ × ℕ × Text} {b : Bool} (now after : Time) (a : Answers fl.F)
      (c : MemoryCollector fl.F) (m : MemoryMetrics fl.F)
      → Settled t b c
      → (collect fl now after a c).1 ≡ ok m
      → statics m ≡ t
  collect-statics now after a c m s h = elim (Bool-cases (fresh now c)) [
    | inl e ↦
        let k : c.cached_info ≡ m = cc (collect_hit now after a c e, h) in
        ap statics (sym k) ∙ s.same
    | inr e ↦
        dynamic-statics a c.cached_info m (
          sym (
            ap (λ r. r.1)
              (collect_miss now after a c e
                ∙ ap (λ p. (store after p, p.1)) (info_done a c s.done)))
          ∙ h)
        ∙ s.same
  ]

  abbrev pub answers : Event fl.F → Answers fl.F
  answers (collecting now after a) = a
  answers (refreshing after a) = a

  -- Storing after the static part keeps a settled collector settled.
  stored-Settled :
      {t : ℤ × ℤ × ℕ × ℕ × ℕ × Text} {b : Bool} (now : Time) (a : Answers fl.F)
      (p : MemoryCollector fl.F × Option Text)
      → Settled t b p.0
      → Settled t b (store now (after_once a p))
  unfolding store after_once
  stored-Settled now a (c, some x) s = s
  stored-Settled {t} {b} now a (c, none) s =
      elim (Result-cases (collect_dynamic_info a c.cached_info)) [
        | inl (m, e) ↦
            subst (λ r. Settled t b (store now (c, r))) (sym e)
              (record {
                done = s.done;
                flag = s.flag;
                same = dynamic-statics a c.cached_info m e ∙ s.same;
              })
        | inr (x, e) ↦ subst (λ r. Settled t b (store now (c, r))) (sym e) s
      ]

  react_new :
      (cfg : MemoryCollectorSettings) (e : Event fl.F)
      → (now : Time) × (react e (new_memory_collector fl cfg)
          ≡ store now (collect_memory_info fl (answers e) (new_memory_collector fl cfg)))
  unfolding react background_round new_memory_collector
  react_new cfg (collecting now after a) =
      (after, ap (λ r. r.0) (collect_miss now after a (new_memory_collector fl cfg) (and_false _)))
  react_new cfg (refreshing after a) = (after, refl)

  once_read :
      (cfg : MemoryCollectorSettings) (a : Answers fl.F) (s : MemoryMetrics fl.F)
      → collect_static_info fl a ≡ ok s
      → Settled (statics s) true (static_once fl a (new_memory_collector fl cfg)).0
  unfolding static_once new_memory_collector keep_static
  once_read cfg a s h = rw h (record { done = refl; flag = refl; same = refl })

  once_failed :
      (cfg : MemoryCollectorSettings) (a : Answers fl.F) (x : Text)
      → collect_static_info fl a ≡ err x
      → Settled (statics (blank_memory fl)) false (static_once fl a (new_memory_collector fl cfg)).0
  unfolding static_once new_memory_collector
  once_failed cfg a x h = rw h (record { done = refl; flag = refl; same = refl })

  first-Settled :
      {t : ℤ × ℤ × ℕ × ℕ × ℕ × Text} {b : Bool} (cfg : MemoryCollectorSettings) (e : Event fl.F)
      (es : List (Event fl.F))
      → Settled t b (static_once fl (answers e) (new_memory_collector fl cfg)).0
      → Settled t b (run (e ∷ es) (new_memory_collector fl cfg))
  unfolding run collect_memory_info
  first-Settled {t} {b} cfg e es s =
      let (now, p) = react_new cfg e in
      run-Settled es _ (subst (λ c. Settled t b c) (sym p) (stored-Settled now (answers e) _ s))

  -- If the static part of the first collection succeeds, then every reply of `Collect`, after any
  -- further calls and rounds, has the totals and the hardware data of that first collection.
  pub collect-first_statics :
      (cfg : MemoryCollectorSettings) (e : Event fl.F) (es : List (Event fl.F)) (now after : Time)
      (a : Answers fl.F) (s m : MemoryMetrics fl.F)
      → collect_static_info fl (answers e) ≡ ok s
      → (collect fl now after a (run (e ∷ es) (new_memory_collector fl cfg))).1 ≡ ok m
      → statics m ≡ statics s
  collect-first_statics cfg e es now after a s m h k =
      collect-statics now after a _ m (first-Settled cfg e es (once_read cfg (answers e) s h)) k

  -- If the static part of the first collection fails, it is never tried again: after any further
  -- calls and rounds the static information counts as not loaded, and every reply has totals of
  -- zero and no hardware data.
  pub collect-failed_statics :
      (cfg : MemoryCollectorSettings) (e : Event fl.F) (es : List (Event fl.F)) (now after : Time)
      (a : Answers fl.F) (x : Text) (m : MemoryMetrics fl.F)
      → collect_static_info fl (answers e) ≡ err x
      → (collect fl now after a (run (e ∷ es) (new_memory_collector fl cfg))).1 ≡ ok m
      → ((run (e ∷ es) (new_memory_collector fl cfg)).static_info_loaded ≡ false)
        × (statics m ≡ statics (blank_memory fl))
  collect-failed_statics cfg e es now after a x m h k =
      let s = first-Settled cfg e es (once_failed cfg (answers e) x h) in
      (s.flag, collect-statics now after a _ m s k)
