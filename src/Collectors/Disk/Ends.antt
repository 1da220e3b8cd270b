-- ===== src/Collectors/Disk/Ends.antt =====
-- internal/collectors/disk.go: collectAndCache comes to its end.
use system_monitor_go.Base.{ℕ, ◌<◌, ◌≡◌, inl, inr, some, Text, Time, ok, Result-cases}
use system_monitor_go.Base.Floats.{Float64}
use system_monitor_go.Collectors.Disk.Device.{SysBlock, Cache, first_slave, block_device}
use system_monitor_go.Collectors.Disk.Lookup.{Sound}
use system_monitor_go.Collectors.Disk.Metrics.{Answers, DiskCollector}
use system_monitor_go.Collectors.Disk.Collection.{
  collect_disk_metrics, collect_and_cache, store, counters_of,
}
use system_monitor_go.Collectors.Disk.Mounts.{collect_disk_metrics-mounts}

module _ (fl : Float64) (sys : SysBlock) (rank : Text → ℕ) (n : ℕ)
    (descends : (c s : Text) → first_slave sys (block_device sys c) ≡ some s → rank s < rank c)
    (fuel : (c : Text) → rank c < n) where
  -- With known partitions or without, a round has fuel, and leaves a cache as lookups fill it.
  pub collect_and_cache-Sound :
      (start now after : Time) (a : Answers fl.F) (cache : Cache) (c : DiskCollector fl.F)
      → Sound sys cache
      → (t : Cache × DiskCollector fl.F) × (collect_and_cache fl n sys start now after a cache c
          ≡ some t)
        × Sound sys t.0
  unfolding collect_and_cache collect_disk_metrics
  collect_and_cache-Sound start now after a cache c s = elim (Result-cases a.partitions) [
    | inl (ps, e) ↦
        let (next, ms, k, q, o) =
          collect_disk_metrics-mounts fl sys rank n descends fuel start now a cache c ps s e in
        let kept : DiskCollector fl.F = record c {
          prev_io_counters = counters_of fl a.io_counters;
          prev_time = start;
        } in
        ((next, store fl after (kept, ok ms)), simp (o, collect_and_cache), k)
    | inr (x, e) ↦ ((cache, c), simp (e, collect_and_cache, collect_disk_metrics), s)
  ]
