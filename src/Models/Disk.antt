-- ===== src/Models/Disk.antt =====
-- internal/models/metrics.go: DiskMetrics and DiskIOStats. `F` is the type of `float64`.
use system_monitor_go.Base.{Bool, Text, ℤ}

pub record DiskIoStats (F : Type 0) : Type 0 where
  pub read_bytes : ℤ
  pub write_bytes : ℤ
  pub reads : ℤ
  pub writes : ℤ
  pub read_bytes_per_sec : F
  pub write_bytes_per_sec : F
  pub reads_per_sec : F
  pub writes_per_sec : F
  pub io_in_progress : ℤ
  pub io_time : ℤ
  pub read_time : ℤ
  pub write_time : ℤ
  pub error_flag : Bool

pub record DiskMetrics (F : Type 0) : Type 0 where
  pub device : Text
  pub mount_point : Text
  pub filesystem_type : Text
  pub total : ℤ
  pub used : ℤ
  pub free : ℤ
  pub inodes_total : ℤ
  pub inodes_used : ℤ
  pub inodes_free : ℤ
  pub usage_percent : F
  pub error_flag : Bool
  pub error_message : Text
  pub model_name : Text
  pub type : Text
  pub is_system_disk : Bool
  pub is_page_file_disk : Bool
  pub io_stats : DiskIoStats F
