-- ===== src/Collectors/System/Steps.antt =====
-- internal/collectors/system.go: calls of `Collect` and rounds of the background goroutine that overlap.
-- Each is cut where it takes or leaves the lock. What a goroutine asks the system is told it from the
-- start.
use system_monitor_go.Base.{Time, since_lt, true, Text, Result, ok, err, if◌then◌else◌}
use system_monitor_go.Models.Host.{SystemInfo}
use system_monitor_go.Collectors.System.{
  SystemCollector, Answers, collect_static_info, collect_dynamic_info,
}

-- How far a goroutine is: `Collect` before it looks at the cache, at the time that is given; before it
-- looks whether the static part is loaded; with a static part of its own, before it says so; before
-- it stores what it collected; and at its end.
pub data Phase : Type 0 where
  checking : Time → Answers → Phase
  asking : Answers → Phase
  marking : Answers → SystemInfo → Phase
  storing : SystemInfo → Phase
  finished : Result Text SystemInfo → Phase

unfoldable pub checked : Time → Answers → SystemCollector → Phase
checked at a c =
    if since_lt at c.cached_time c.cache_duration then finished (ok c.cached_info) else asking a

unfoldable pub with_static : Answers → Result Text SystemInfo → Phase
with_static a (ok s) = marking a s
with_static a (err e) = finished (err e)

unfoldable pub measured : Result Text SystemInfo → Phase
measured (ok i) = storing i
measured (err e) = finished (err e)

unfoldable pub asked : Answers → SystemCollector → Phase
unfolding with_static measured collect_static_info collect_dynamic_info
asked a c =
    if c.static_info_loaded
    then measured (collect_dynamic_info a c.cached_info)
    else with_static a (collect_static_info a)

unfoldable pub step : Time → Phase → SystemCollector → SystemCollector × Phase
unfolding checked asked measured collect_dynamic_info
step now (checking at a) c = (c, checked at a c)
step now (asking a) c = (c, asked a c)
step now (marking a s) c =
    (record c { static_info_loaded = true }, measured (collect_dynamic_info a s))
step now (storing i) c = (record c { cached_info = i; cached_time = now }, finished (ok i))
step now (finished r) c = (c, finished r)
