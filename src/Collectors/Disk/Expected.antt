-- ===== src/Collectors/Disk/Expected.antt =====
-- internal/collectors/disk.go: the statistics of a partition, described by the names under which its
-- counters may stand and by the counters of both collections, apart from the code's own steps.
use system_monitor_go.Base.{
  ℕ, ◌≡◌, refl, ◌∙◌, ap, false, ◌||◌, Option, none, some, List, [], ◌∷◌, Text, codes, text_eq, any,
  has_prefix, Time, is_zero, sub_time, to_int64, sub_u64, lookup, inl, inr, Bool-cases,
  Option-cases, if◌then◌else◌,
}
use system_monitor_go.Base.Floats.{Float64, float_seconds}
use system_monitor_go.Models.Disk.{DiskIoStats}
use system_monitor_go.Collectors.Disk.Metrics.{
  IoCounters, Partition, DiskCollector, ignored_fs_types, rate_duration, rate, counted, io_stats,
  no_stats,
}
use system_monitor_go.Collectors.Disk.Collection.{stats_of, find_counters}

-- The partitions whose file system is none of the listed ones.
unfoldable pub shown : List Partition → List Partition
shown [] = []
shown (p ∷ ps) = if any (λ t. text_eq t p.fstype) ignored_fs_types then shown ps else p ∷ shown ps

-- The first of the names that has counters, with them.
unfoldable pub first_in : List (Text × IoCounters) → List Text → Option (Text × IoCounters)
unfolding lookup
first_in cs [] = none
first_in cs (name ∷ names) = elim (lookup name cs) [
  | some io ↦ some (name, io)
  | none ↦ first_in cs names
]

-- The names to look under: an NVMe partition's block device comes before it, another's behind it.
abbrev pub names_of : Text → Text → List Text
names_of dev block = if has_prefix dev (codes "nvme") then block ∷ dev ∷ [] else dev ∷ block ∷ []

find_counters-first_in :
    (cs : List (Text × IoCounters)) (dev block : Text)
    → find_counters cs dev block ≡ first_in cs (names_of dev block)
unfolding find_counters first_in
find_counters-first_in cs dev block = elim (Bool-cases (has_prefix dev (codes "nvme"))) [
  | inl e ↦ elim (Option-cases (lookup block cs)) [
    | inl f ↦ elim (Option-cases (lookup dev cs)) [
      | inl g ↦ rw (e, f, g, first_in) (simp (find_counters, e, f, g))
      | inr (io, g) ↦ rw (e, f, g, first_in) (simp (find_counters, e, f, g))
    ]
    | inr (io, f) ↦ rw (e, f, first_in) (simp (find_counters, e, f))
  ]
  | inr e ↦ elim (Option-cases (lookup dev cs)) [
    | inl g ↦ elim (Option-cases (lookup block cs)) [
      | inl f ↦ rw (e, g, f, first_in) (simp (find_counters, e, f, g))
      | inr (io, f) ↦ rw (e, g, f, first_in) (simp (find_counters, e, f, g))
    ]
    | inr (io, g) ↦ rw (e, g, first_in) (simp (find_counters, e, g))
  ]
]

module _ (fl : Float64) where
  -- The seconds since the collection before, or one where these are not positive.
  abbrev pub elapsed : Time → Time → fl.F
  elapsed prev now =
      let s : fl.F = float_seconds fl (sub_time now prev) in
      if fl.lt s (fl.of_nat 0) || fl.eq s (fl.of_nat 0) then fl.of_nat 1 else s

  -- A count per second since the collection before; zero where there was none that had the device.
  unfoldable pub since : Time → DiskCollector fl.F → Text → (IoCounters → ℕ) → IoCounters → fl.F
  unfolding lookup float_seconds
  since now c name count io =
      if is_zero c.prev_time then fl.of_nat 0 else elim (lookup name c.prev_io_counters) [
        | none ↦ fl.of_nat 0
        | some prev ↦ fl.div (fl.of_nat (sub_u64 (count io) (count prev))) (elapsed c.prev_time now)
      ]

  -- The totals of the device and its four rates, or zeros for an unknown device.
  unfoldable pub expected :
      Time → DiskCollector fl.F → Option (Text × IoCounters) → DiskIoStats fl.F
  unfolding since
  expected now c none = no_stats fl
  expected now c (some (name, io)) = record {
    read_bytes = to_int64 io.read_bytes;
    write_bytes = to_int64 io.write_bytes;
    reads = to_int64 io.read_count;
    writes = to_int64 io.write_count;
    read_bytes_per_sec = since now c name (λ i. i.read_bytes) io;
    write_bytes_per_sec = since now c name (λ i. i.write_bytes) io;
    reads_per_sec = since now c name (λ i. i.read_count) io;
    writes_per_sec = since now c name (λ i. i.write_count) io;
    io_in_progress = to_int64 io.iops_in_progress;
    io_time = to_int64 io.io_time;
    read_time = to_int64 io.read_time;
    write_time = to_int64 io.write_time;
    error_flag = false;
  }

  duration-elapsed :
      (prev now : Time) → is_zero prev ≡ false → rate_duration fl prev now ≡ elapsed prev now
  unfolding rate_duration
  duration-elapsed prev now h = rw h refl

  stats_of-expected :
      (now : Time) (c : DiskCollector fl.F) (found : Option (Text × IoCounters))
      → stats_of fl found c.prev_io_counters
          (is_zero c.prev_time)
          (rate_duration fl c.prev_time now)
        ≡ expected now c found
  unfolding stats_of expected since io_stats counted rate
  stats_of-expected now c none = refl
  stats_of-expected now c (some (name, io)) = elim (Bool-cases (is_zero c.prev_time)) [
    | inl e ↦ rw e refl
    | inr e ↦ elim (Option-cases (lookup name c.prev_io_counters)) [
      | inl f ↦ rw (e, f) refl
      | inr (prev, f) ↦ rw (e, f, duration-elapsed c.prev_time now e) refl
    ]
  ]

  -- The code's statistics are the described ones.
  pub stats_of-find_counters :
      (now : Time) (c : DiskCollector fl.F) (cs : List (Text × IoCounters)) (dev block : Text)
      → stats_of fl
          (find_counters cs dev block)
          c.prev_io_counters
          (is_zero c.prev_time)
          (rate_duration fl c.prev_time now)
        ≡ expected now c (first_in cs (names_of dev block))
  stats_of-find_counters now c cs dev block =
      stats_of-expected now c (find_counters cs dev block)
      ∙ ap (expected now c) (find_counters-first_in cs dev block)
