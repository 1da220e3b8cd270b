-- ===== src/Collectors/Disk/Tests.antt =====
-- Runs of the disk collector, and its theorems at concrete inputs.
use system_monitor_go.Base.{
  ℕ, ◌<◌, true, ◌≡◌, refl, arith, some, ok, err, List, [], ◌∷◌, Text, codes, text_eq, map,
  if◌then◌else◌, ◌||◌, lookup, pos, ◌≤◌, ◌-◌, ◌⊎◌, u64_mod,
}
use system_monitor_go.Base.Floats.{whole}
use system_monitor_go.Models.Disk.{DiskIoStats, DiskMetrics}
use system_monitor_go.Collectors.Disk.Metrics.{
  Partition, IoCounters, Answers, DiskCollector, is_ignored, io_stats,
}
use system_monitor_go.Collectors.Disk.Rates.{io_stats_rate}
use system_monitor_go.Collectors.Disk.Collection.{counters_of, collect_disk_metrics}
use system_monitor_go.Collectors.Disk.Mounts.{mounted, collect_disk_metrics-mounts}
use system_monitor_go.Collectors.Disk.Expected.{shown}
use system_monitor_go.Collectors.Disk.Device.{
  SysBlock, Cache, without_number, block_device, get_disk_info, first_slave,
}
use system_monitor_go.Collectors.Disk.Lookup.{Sound, get_block_devices, get_block_devices-map}

-- A logical volume on a partition of a solid-state disk.
abbrev one_volume : SysBlock
one_volume = record {
  is_there = λ d. text_eq d (codes "nvme0n1") || text_eq d (codes "dm-0");
  slaves =
      λ d. if text_eq d (codes "dm-0") then ok (codes "nvme0n1p3" ∷ []) else err (codes "none");
  model = λ d. if text_eq d (codes "nvme0n1") then ok (codes "Fast 1 ") else err (codes "none");
  rotational = λ d. ok (codes "0 ");
}

numbers_go :
    map without_number (codes "sda1" ∷ codes "nvme0n1p3" ∷ codes "sda" ∷ codes "mmcblk0" ∷ [])
    ≡ codes "sda" ∷ codes "nvme0n1" ∷ codes "sda" ∷ codes "mmcblk" ∷ []
unfolding without_number
numbers_go = refl

volume_info :
    get_disk_info 2 one_volume [] (codes "dm-0")
    ≡ some (
      (codes "dm-0", codes "dm-0") ∷ (codes "nvme0n1p3", codes "nvme0n1") ∷ [],
      (codes "Fast 1", codes "SSD"),
    )
unfolding get_disk_info
volume_info = refl

get_block_devices-map_example :
    get_block_devices one_volume [] (codes "sda1" ∷ codes "nvme0n1p3" ∷ codes "nvme0n1p3" ∷ [])
    ≡ map (block_device one_volume) (codes "sda1" ∷ codes "nvme0n1p3" ∷ codes "nvme0n1p3" ∷ [])
get_block_devices-map_example =
    get_block_devices-map one_volume (codes "sda1" ∷ codes "nvme0n1p3" ∷ codes "nvme0n1p3" ∷ [])

abbrev level : Text → ℕ
level d = if text_eq (block_device one_volume d) (codes "dm-0") then 1 else 0

slave_of_volume :
    (x s : Text)
    → first_slave one_volume x ≡ some s
    → (text_eq x (codes "dm-0") ≡ true) × (s ≡ codes "nvme0n1p3")
unfolding first_slave
slave_of_volume x s h = ground arith

level_descends :
    (c s : Text) → first_slave one_volume (block_device one_volume c) ≡ some s → level s < level c
unfolding block_device without_number
level_descends c s h =
    let (top, low) = slave_of_volume (block_device one_volume c) s h in rw (top, low) (omega arith)

abbrev two_partitions : List Partition
two_partitions =
    record { device = codes "/dev/sda1"; mountpoint = codes "/"; fstype = codes "ext4" }
    ∷ record { device = codes "tmpfs"; mountpoint = codes "/run"; fstype = codes "tmpfs" }
    ∷ []

abbrev some_io : IoCounters
some_io = record {
  read_bytes = 700;
  write_bytes = 20;
  read_count = 7;
  write_count = 2;
  read_time = 1;
  write_time = 1;
  iops_in_progress = 0;
  io_time = 2;
}

abbrev disk_answers : Answers ℕ
disk_answers = record {
  partitions = ok two_partitions;
  io_counters = ok ((codes "sda1", some_io) ∷ []);
  usage = λ m. err (codes "busy");
}

abbrev new_disks : DiskCollector ℕ
new_disks = record {
  cached_metrics = [];
  cached_time = 0;
  cache_duration = pos 3;
  update_frequency = pos 2;
  background_running = true;
  prev_io_counters = [];
  prev_time = 0;
}

level_bound : (c : Text) → level c < 2
level_bound c = ground arith

empty-Sound : Sound one_volume []
unfolding lookup
empty-Sound k v h = ground arith

collect_disk_metrics-mounts_example :
    (after : Cache) × (ms : List (DiskMetrics ℕ)) × Sound one_volume after
    × (map {B = Text × DiskIoStats ℕ} (λ m. (m.mount_point, m.io_stats)) ms
        ≡ map (mounted whole one_volume 6 disk_answers new_disks) (shown two_partitions))
    × (collect_disk_metrics whole 2 one_volume 5 6 disk_answers [] new_disks
        ≡ some (
          after,
          (
            record new_disks {
              prev_io_counters = counters_of whole disk_answers.io_counters;
              prev_time = 5;
            },
            ok ms,
          ),
        ))
collect_disk_metrics-mounts_example =
    collect_disk_metrics-mounts whole one_volume (λ c. level c) 2 (λ c s h. level_descends c s h)
      (λ c. level_bound c) 5 6 disk_answers [] new_disks two_partitions empty-Sound refl

only_root : map (λ p. p.mountpoint) (shown two_partitions) ≡ codes "/" ∷ []
unfolding shown is_ignored
only_root = refl

abbrev reset_io : IoCounters
reset_io = record some_io { read_bytes = 10 }

io_stats_rate_example :
    (700 ≤ 10
      × ((io_stats whole reset_io (some some_io) 2).read_bytes_per_sec
          ≡ whole.div (whole.of_nat (10 - 700)) 2))
    ⊎ (10 < 700
        × ((io_stats whole reset_io (some some_io) 2).read_bytes_per_sec
            ≡ whole.div (whole.of_nat (u64_mod - (700 - 10))) 2))
io_stats_rate_example = io_stats_rate whole reset_io some_io 2 (omega arith) (omega arith)
