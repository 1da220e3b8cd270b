-- ===== src/Collectors/Cpu/Safety.antt =====
-- internal/collectors/cpu.go: a call of Collect on a machine without hyperthreading.
use system_monitor_go.Base.{
  ◌<◌, ◌≡◌, refl, sym, arith, ltb→lt, ◌&&◌, Bool, true, false, List, [], ◌∷◌, Text, ℤ, length,
  Finishes, >>=-Finishes, Result, ok, err, Time, if◌then◌else◌,
}
use mathlib.Core.Path.{subst}
use system_monitor_go.Base.Floats.{Float64}
use system_monitor_go.Models.Cpu.{CpuCore}
use system_monitor_go.Collectors.Cpu.{Sensor, Answers, CpuCollector, CpuInfo}
use system_monitor_go.Collectors.Cpu.Sensors.{read_temperatures}
use system_monitor_go.Collectors.Cpu.Collection.{
  collect, guarded, sampling_time, usages, sampled, warm_cores, build, finish, first_of, differ,
  with_sampling, make_cores,
}
use system_monitor_go.Collectors.Cpu.Cores.{read_sensors-ret}

differ_self : (z : ℤ) → differ z z ≡ false
unfolding differ
differ_self z = ground arith

warm_cores-Finishes :
    (fl : Float64) (t : Result Text (List (Sensor fl.F))) (cores : List (CpuCore fl.F))
    → Finishes (warm_cores fl false t cores)
unfolding warm_cores read_temperatures
warm_cores-Finishes fl (err e) cores = ((cores, fl.of_nat 0), refl)
warm_cores-Finishes fl (ok ss) cores =
    >>=-Finishes _ _ (read_sensors-ret ss cores (fl.of_nat 0)) (λ t. (_, refl))

module _ (fl : Float64) (parse_float : Text → fl.F × Bool) where
  build-Finishes :
      (a : Answers fl.F) (i : CpuInfo fl.F) (is : List (CpuInfo fl.F)) (l r : ℤ) (p : fl.F)
      (ps cs : List fl.F)
      → differ l r ≡ false
      → Finishes (build fl parse_float a (i ∷ is) l r (p ∷ ps, cs))
  unfolding build first_of
  build-Finishes a i is l r p ps cs h =
      >>=-Finishes _ _
        (subst (λ b. Finishes (warm_cores fl b a.temperatures (make_cores fl 0 cs))) (sym h)
          (warm_cores-Finishes fl a.temperatures (make_cores fl 0 cs)))
        (λ w. (_, refl))

  -- The samples that a collection uses, from the cache or the processor, are not empty.
  abbrev Sampled : Result Text (List fl.F × List fl.F) → Type 0
  Sampled (ok (total, cores)) = 0 < length total
  Sampled (err e) = Unit

  sampled-Sampled :
      (after : Time) (t u : Result Text (List fl.F)) (c : CpuCollector fl.F)
      → ((l : List fl.F) → t ≡ ok l → 0 < length l)
      → Sampled (sampled after t u c).1
  unfolding sampled
  sampled-Sampled after (ok l) (ok m) c h = h l refl
  sampled-Sampled after (ok l) (err e) c h = tt
  sampled-Sampled after (err e) u c h = tt

  cache-Sampled :
      (x y z : Bool) (c : CpuCollector fl.F)
      (q : CpuCollector fl.F × Result Text (List fl.F × List fl.F))
      → (y ≡ true → 0 < length c.cached_percent)
      → Sampled q.1
      → Sampled (if x && y && z then (c, ok (c.cached_percent, c.cached_percents)) else q).1
  cache-Sampled true true true c q h s = h refl
  cache-Sampled true true false c q h s = s
  cache-Sampled true false z c q h s = s
  cache-Sampled false y z c q h s = s

  usages-Sampled :
      (now after : Time) (a : Answers fl.F) (c : CpuCollector fl.F)
      → ((d : ℤ) (l : List fl.F) → a.total_percent d ≡ ok l → 0 < length l)
      → Sampled (usages now after a c).1
  unfolding usages
  usages-Sampled now after a c h =
      cache-Sampled _ _ _ c _ (λ e. ltb→lt 0 (length c.cached_percent) e)
        (sampled-Sampled after _ _ c (h (sampling_time c.direct_sampling)))

  finish-Finishes :
      (a : Answers fl.F) (i : CpuInfo fl.F) (is : List (CpuInfo fl.F)) (l r : ℤ)
      (u : CpuCollector fl.F × Result Text (List fl.F × List fl.F))
      → differ l r ≡ false
      → Sampled u.1
      → Finishes (finish fl parse_float a (i ∷ is) l r u)
  unfolding finish
  finish-Finishes a i is l r (c, err e) h s = ((c, err e), refl)
  finish-Finishes a i is l r (c, ok ([], cs)) h s = absurd (omega arith)
  finish-Finishes a i is l r (c, ok (p ∷ ps, cs)) h s =
      >>=-Finishes _ _ (build-Finishes a i is l r p ps cs h) (λ m. (_, refl))

  guarded-Finishes :
      (a : Answers fl.F) (c : CpuCollector fl.F)
      (u : CpuCollector fl.F × Result Text (List fl.F × List fl.F))
      (info : Result Text (List (CpuInfo fl.F))) (counts : Result Text ℤ)
      → ((is : List (CpuInfo fl.F)) → info ≡ ok is → 0 < length is)
      → Sampled u.1
      → Finishes (guarded fl parse_float a c u info counts counts)
  unfolding guarded
  guarded-Finishes a c u (err e) counts h s = ((c, err e), refl)
  guarded-Finishes a c u (ok is) (err e) h s = ((c, err e), refl)
  guarded-Finishes a c u (ok []) (ok n) h s =
      let k : 0 < length {A = CpuInfo fl.F} [] = h [] refl in absurd (omega arith)
  guarded-Finishes a c u (ok (i ∷ is)) (ok n) h s = finish-Finishes a i is n n u (differ_self n) s

  -- Where there are as many logical processors as physical ones, a call of `Collect` does not panic,
  -- whatever the sensors and `lscpu` tell, if the processor's information and the samples of its
  -- usage have an entry each whenever they are given without an error.
  pub collect-Finishes :
      (now after : Time) (a : Answers fl.F) (c : CpuCollector fl.F)
      → ((is : List (CpuInfo fl.F)) → a.info ≡ ok is → 0 < length is)
      → ((d : ℤ) (l : List fl.F) → a.total_percent d ≡ ok l → 0 < length l)
      → a.logical_counts ≡ a.physical_counts
      → Finishes (collect fl parse_float now after a c)
  unfolding collect
  collect-Finishes now after a c hi ht e =
      subst
        (λ p. Finishes (
          guarded fl parse_float a (with_sampling c) (usages now after a (with_sampling c)) a.info
            a.logical_counts p))
        e
        (guarded-Finishes a (with_sampling c) (usages now after a (with_sampling c)) a.info
          a.logical_counts hi (usages-Sampled now after a (with_sampling c) ht))
