-- ===== src/Collectors/Disk/Mounts.antt =====
-- internal/collectors/disk.go: which partitions a collection reports.
use system_monitor_go.Base.{
  base_name, ℕ, ◌<◌, ◌≡◌, refl, ap, ◌∙◌, some, List, [], ◌∷◌, Text, map, Time, inl, inr, Bool-cases,
  Result, ok, err, is_zero,
}
use mathlib.Core.Path.{ap₂}
use system_monitor_go.Base.Floats.{Float64}
use system_monitor_go.Models.Disk.{DiskMetrics, DiskIoStats}
use system_monitor_go.Collectors.Disk.Device.{
  SysBlock, Cache, first_slave, block_device, get_block_device, info_at,
}
use system_monitor_go.Collectors.Disk.Lookup.{Sound, get_block_device-Sound, info_from}
use system_monitor_go.Collectors.Disk.Metrics.{
  Partition, Answers, DiskCollector, is_ignored, rate_duration, Usage,
}
use system_monitor_go.Collectors.Disk.Collection.{
  stats_of, find_counters, Round, collect_partition, collect_partitions, collect_disk_metrics,
  metrics_of, with_usage, cons_metrics, counters_of,
}
use system_monitor_go.Collectors.Disk.Expected.{
  shown, names_of, first_in, expected, stats_of-find_counters,
}

-- Where a partition is mounted, with the statistics of the device of its own or its block device's name.
abbrev pub mounted :
    (fl : Float64)
    → SysBlock
    → Time
    → Answers fl.F
    → DiskCollector fl.F
    → Partition
    → Text × DiskIoStats fl.F
mounted fl sys now a c p =
    let dev : Text = base_name p.device in
    (
      p.mountpoint,
      expected fl now c
          (first_in (counters_of fl a.io_counters) (names_of dev (block_device sys dev))),
    )

-- What a collection at this time has for all its partitions.
abbrev round_at : (fl : Float64) → Time → Answers fl.F → DiskCollector fl.F → Round fl
round_at fl now a c = record {
  usage = a.usage;
  counters = counters_of fl a.io_counters;
  prev = c.prev_io_counters;
  first = is_zero c.prev_time;
  duration = rate_duration fl c.prev_time now;
}

module _ (fl : Float64) (sys : SysBlock) (rank : Text → ℕ) (n : ℕ)
    (descends : (c s : Text) → first_slave sys (block_device sys c) ≡ some s → rank s < rank c)
    (fuel : (c : Text) → rank c < n) where
  abbrev mount_of : DiskMetrics fl.F → Text × DiskIoStats fl.F
  mount_of m = (m.mount_point, m.io_stats)

  mount_of-metrics :
      (u : Result Text (Usage fl.F)) (st : DiskIoStats fl.F) (info : Text × Text) (p : Partition)
      → mount_of (metrics_of fl u st info p) ≡ (p.mountpoint, st)
  unfolding metrics_of with_usage
  mount_of-metrics (ok u) st info p = refl
  mount_of-metrics (err e) st info p = refl

  partition-mount :
      (now : Time) (a : Answers fl.F) (kept : DiskCollector fl.F) (cache : Cache) (p : Partition)
      → Sound sys cache
      → (after : Cache) × (m : DiskMetrics fl.F) × Sound sys after
        × (mount_of m ≡ mounted fl sys now a kept p)
        × (collect_partition fl n sys (round_at fl now a kept) cache p ≡ some (after, m))
  unfolding collect_partition
  partition-mount now a kept cache p s =
      let r : Round fl = round_at fl now a kept in
      let found : Cache × Text = get_block_device sys cache (base_name p.device) in
      let (t, e) = get_block_device-Sound sys cache (base_name p.device) s in
      let (after, x, l, z, q) = info_from sys rank n found.0 found.1 t descends (fuel found.1) in
      let stats : Text → DiskIoStats fl.F = λ d.
        stats_of fl (find_counters r.counters (base_name p.device) d) r.prev r.first r.duration in
      (
        after,
        metrics_of fl (r.usage p.mountpoint) (stats found.1) (info_at sys x) p,
        z,
        mount_of-metrics (r.usage p.mountpoint) (stats found.1) (info_at sys x) p
            ∙ ap (λ d. (p.mountpoint, stats d)) e
            ∙ ap (λ t. (p.mountpoint, t))
                (stats_of-find_counters fl now kept r.counters (base_name p.device)
                  (block_device sys (base_name p.device))),
        rw (q, collect_partition),
      )

  partitions-mounts :
      (now : Time) (a : Answers fl.F) (kept : DiskCollector fl.F) (cache : Cache)
      (ps : List Partition)
      → Sound sys cache
      → (after : Cache) × (ms : List (DiskMetrics fl.F)) × Sound sys after
        × (map mount_of ms ≡ map (mounted fl sys now a kept) (shown ps))
        × (collect_partitions fl n sys (round_at fl now a kept) cache ps ≡ some (after, ms))
  unfolding collect_partitions shown cons_metrics is_ignored
  partitions-mounts now a kept cache [] s = (cache, [], s, refl, refl)
  partitions-mounts now a kept cache (p ∷ ps) s = elim (Bool-cases (is_ignored p.fstype)) [
    | inl e ↦
        let (after, ms, t, h, q) = partitions-mounts now a kept cache ps s in
        (after, ms, t, rw e h, rw e q)
    | inr e ↦
        let (next, m, u, k, o) = partition-mount now a kept cache p s in
        let (after, ms, t, h, q) = partitions-mounts now a kept next ps u in
        (after, m ∷ ms, t, rw e (ap₂ (λ a b. a ∷ b) k h), rw (e, o) (rw q))
  ]

  -- If the slaves of device-mapper devices descend in a rank below the fuel, and the cache of the
  -- block devices was filled by lookups, a collection whose partitions are known ends without an
  -- error and reports exactly the partitions whose file system is not ignored, in their order, each
  -- with the statistics of the device of its own name or of its block device's (this one first for
  -- NVMe): zeros if neither has counters, and else the totals, with the four rates since the counters
  -- that the collector kept of that device, which are zero in its first collection and for a device
  -- of which it kept none. It keeps the new counters and its start in place of the old ones, and
  -- leaves a cache that could be filled by lookups.
  pub collect_disk_metrics-mounts :
      (start now : Time) (a : Answers fl.F) (cache : Cache) (c : DiskCollector fl.F)
      (ps : List Partition)
      → Sound sys cache
      → a.partitions ≡ ok ps
      → (after : Cache) × (ms : List (DiskMetrics fl.F)) × Sound sys after
        × (map {B = Text × DiskIoStats fl.F} (λ m. (m.mount_point, m.io_stats)) ms
            ≡ map (mounted fl sys now a c) (shown ps))
        × (collect_disk_metrics fl n sys start now a cache c
            ≡ some (
              after,
              (
                record c { prev_io_counters = counters_of fl a.io_counters; prev_time = start },
                ok ms,
              ),
            ))
  unfolding collect_disk_metrics
  collect_disk_metrics-mounts start now a cache c ps s h =
      let (after, ms, t, k, q) = partitions-mounts now a c cache ps s in
      (after, ms, t, k, simp (h, q, collect_disk_metrics))
