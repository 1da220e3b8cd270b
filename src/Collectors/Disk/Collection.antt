-- ===== src/Collectors/Disk/Collection.antt =====
-- internal/collectors/disk.go: collectDiskMetrics, Collect and the rounds of the background goroutine.
use system_monitor_go.Base.{
  base_name, ℕ, Bool, true, false, ◌&&◌, Option, none, some, List, [], ◌∷◌, Text, codes, text_eq,
  has_prefix, Time, is_zero, since_lt, Result, ok, err, to_int64, pos, lookup, length, ltb,
  if◌then◌else◌,
}
use system_monitor_go.Base.Floats.{Float64}
use system_monitor_go.Models.Disk.{DiskMetrics, DiskIoStats}
use system_monitor_go.Collectors.Disk.Device.{SysBlock, Cache, get_block_device, get_disk_info}
use system_monitor_go.Collectors.Disk.Metrics.{
  IoCounters, Partition, Usage, Answers, DiskCollector, is_ignored, rate_duration, io_stats,
  no_stats,
}

-- The name under which the counters of a partition stand, and the counters.
unfoldable pub find_counters : List (Text × IoCounters) → Text → Text → Option (Text × IoCounters)
unfolding lookup has_prefix
find_counters counters io_device block_device =
    let name : Text =
      if has_prefix io_device (codes "nvme")
      then elim (lookup block_device counters) [ some c ↦ block_device | none ↦ io_device ]
      else io_device in
    elim (lookup name counters) [
      | some c ↦ some (name, c)
      | none ↦ elim (lookup block_device counters) [ some c ↦ some (block_device, c) | none ↦ none ]
    ]

module _ (fl : Float64) where
  unfoldable pub with_usage : Result Text (Usage fl.F) → DiskMetrics fl.F → DiskMetrics fl.F
  with_usage (err e) m = m
  with_usage (ok u) m = record m {
    total = to_int64 u.total;
    used = to_int64 u.used;
    free = to_int64 u.free;
    usage_percent = u.used_percent;
    inodes_total = to_int64 u.inodes_total;
    inodes_used = to_int64 u.inodes_used;
    inodes_free = to_int64 u.inodes_free;
  }

  -- The counters of the last collection are used from the second collection on.
  unfoldable pub stats_of :
      Option (Text × IoCounters) → List (Text × IoCounters) → Bool → fl.F → DiskIoStats fl.F
  unfolding io_stats lookup
  stats_of none prev first duration = no_stats fl
  stats_of (some (name, io)) prev first duration =
      io_stats fl io (if first then none else lookup name prev) duration

  unfoldable pub metrics_of :
      Result Text (Usage fl.F) → DiskIoStats fl.F → Text × Text → Partition → DiskMetrics fl.F
  unfolding with_usage text_eq
  metrics_of usage stats info p = with_usage usage (record {
    device = p.device;
    mount_point = p.mountpoint;
    filesystem_type = p.fstype;
    total = pos 0;
    used = pos 0;
    free = pos 0;
    inodes_total = pos 0;
    inodes_used = pos 0;
    inodes_free = pos 0;
    usage_percent = fl.of_nat 0;
    error_flag = false;
    error_message = [];
    model_name = info.0;
    type = info.1;
    is_system_disk = text_eq p.mountpoint (codes "/");
    is_page_file_disk = text_eq p.fstype (codes "swap");
    io_stats = stats;
  })

  -- What stays the same for all the partitions of one collection.
  pub record Round : Type 0 where
    pub usage : Text → Result Text (Usage fl.F)
    pub counters : List (Text × IoCounters)
    pub prev : List (Text × IoCounters)
    pub first : Bool
    pub duration : fl.F

  unfoldable pub collect_partition :
      ℕ → SysBlock → Round → Cache → Partition → Option (Cache × DiskMetrics fl.F)
  unfolding base_name get_block_device get_disk_info find_counters stats_of metrics_of
  collect_partition n sys r cache p =
      let io_device : Text = base_name p.device in
      let found : Cache × Text = get_block_device sys cache io_device in
      elim (get_disk_info n sys found.0 found.1) [
        | none ↦ none
        | some (after, info) ↦ some (
          after,
          metrics_of (r.usage p.mountpoint)
              (stats_of (find_counters r.counters io_device found.1) r.prev r.first r.duration) info
              p,
        )
      ]

  unfoldable pub cons_metrics :
      DiskMetrics fl.F
      → Option (Cache × List (DiskMetrics fl.F))
      → Option (Cache × List (DiskMetrics fl.F))
  cons_metrics m none = none
  cons_metrics m (some (cache, ms)) = some (cache, m ∷ ms)

  -- The loop over the partitions.
  unfoldable pub collect_partitions :
      ℕ → SysBlock → Round → Cache → List Partition → Option (Cache × List (DiskMetrics fl.F))
  unfolding cons_metrics collect_partition is_ignored
  collect_partitions n sys r cache [] = some (cache, [])
  collect_partitions n sys r cache (p ∷ ps) = elim (is_ignored p.fstype) [
    | true ↦ collect_partitions n sys r cache ps
    | false ↦ elim (collect_partition n sys r cache p) [
      | none ↦ none
      | some (after, m) ↦ cons_metrics m (collect_partitions n sys r after ps)
    ]
  ]

  unfoldable pub counters_of : Result Text (List (Text × IoCounters)) → List (Text × IoCounters)
  counters_of (ok cs) = cs
  counters_of (err e) = []

  -- `collectDiskMetrics`, with `start` the time that it keeps and `now` the one for the duration.
  unfoldable pub collect_disk_metrics :
      ℕ
      → SysBlock
      → Time
      → Time
      → Answers fl.F
      → Cache
      → DiskCollector fl.F
      → Option (Cache × (DiskCollector fl.F × Result Text (List (DiskMetrics fl.F))))
  unfolding collect_partitions counters_of rate_duration
  collect_disk_metrics n sys start now a cache c = elim a.partitions [
    | err e ↦ some (cache, (c, err e))
    | ok ps ↦
        let cs : List (Text × IoCounters) = counters_of a.io_counters in
        let r : Round = record {
          usage = a.usage;
          counters = cs;
          prev = c.prev_io_counters;
          first = is_zero c.prev_time;
          duration = rate_duration fl c.prev_time now;
        } in
        elim (collect_partitions n sys r cache ps) [
          | none ↦ none
          | some (after, ms) ↦
              some (after, (record c { prev_io_counters = cs; prev_time = start }, ok ms))
        ]
  ]

  -- `Collect` and `collectAndCache` keep the metrics, with the time, unless there was an error.
  unfoldable pub store :
      Time → DiskCollector fl.F × Result Text (List (DiskMetrics fl.F)) → DiskCollector fl.F
  store now (c, ok ms) = record c { cached_metrics = ms; cached_time = now }
  store now (c, err e) = c

  unfoldable pub collect_and_cache :
      ℕ
      → SysBlock
      → Time
      → Time
      → Time
      → Answers fl.F
      → Cache
      → DiskCollector fl.F
      → Option (Cache × DiskCollector fl.F)
  unfolding collect_disk_metrics store
  collect_and_cache n sys start now after a cache c =
      elim (collect_disk_metrics n sys start now a cache c) [
        | none ↦ none
        | some (next, out) ↦ some (next, store after out)
      ]

  -- `Collect`, called at `at`. An empty list in the cache does not count.
  unfoldable pub collect :
      ℕ
      → SysBlock
      → Time
      → Time
      → Time
      → Time
      → Answers fl.F
      → Cache
      → DiskCollector fl.F
      → Option (Cache × (DiskCollector fl.F × Result Text (List (DiskMetrics fl.F))))
  unfolding collect_disk_metrics store
  collect n sys at start now after a cache c =
      if since_lt at c.cached_time c.cache_duration && ltb 0 (length c.cached_metrics)
      then some (cache, (c, ok c.cached_metrics))
      else elim (collect_disk_metrics n sys start now a cache c) [
        | none ↦ none
        | some (next, out) ↦ some (next, (store after out, out.1))
      ]
