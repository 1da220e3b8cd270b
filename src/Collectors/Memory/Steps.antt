-- ===== src/Collectors/Memory/Steps.antt =====
-- internal/collectors/memory.go: calls of `Collect` and rounds of the background goroutine that overlap.
-- Each is cut where it takes or leaves the lock; `collectStaticOnce.Do` is one step, since it holds
-- back the others until it is done. What a goroutine asks the system is told it from the start.
use system_monitor_go.Base.{
  ◌&&◌, Option, none, some, Time, since_lt, Text, Result, ok, err, if◌then◌else◌,
}
use system_monitor_go.Base.Floats.{Float64}
use system_monitor_go.Models.Memory.{MemoryMetrics}
use system_monitor_go.Collectors.Memory.{
  MemoryCollector, Answers, static_once, collect_dynamic_info,
}

-- How far a goroutine is: `Collect` before it looks at the cache, at the time that is given; before
-- `Do`; before it copies the cache; before it stores what it collected; and at its end.
pub data Phase (F : Type 0) : Type 0 where
  checking : Time → Answers F → Phase F
  asking : Answers F → Phase F
  copying : Answers F → Phase F
  storing : MemoryMetrics F → Phase F
  finished : Result Text (MemoryMetrics F) → Phase F

module _ (fl : Float64) where
  unfoldable pub checked : Time → Answers fl.F → MemoryCollector fl.F → Phase fl.F
  checked at a c =
      if since_lt at c.cached_time c.cache_duration && c.static_info_loaded
      then finished (ok c.cached_info)
      else asking a

  unfoldable pub after_do : Answers fl.F → Option Text → Phase fl.F
  after_do a none = copying a
  after_do a (some e) = finished (err e)

  unfoldable pub measured : Result Text (MemoryMetrics fl.F) → Phase fl.F
  measured (ok m) = storing m
  measured (err e) = finished (err e)

  unfoldable pub step : Time → Phase fl.F → MemoryCollector fl.F → MemoryCollector fl.F × Phase fl.F
  unfolding checked static_once after_do measured collect_dynamic_info
  step now (checking at a) c = (c, checked at a c)
  step now (asking a) c = ((static_once fl a c).0, after_do a (static_once fl a c).1)
  step now (copying a) c = (c, measured (collect_dynamic_info a c.cached_info))
  step now (storing m) c = (record c { cached_info = m; cached_time = now }, finished (ok m))
  step now (finished r) c = (c, finished r)
