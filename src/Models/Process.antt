-- ===== src/Models/Process.antt =====
-- internal/models/metrics.go: ProcessInfo. `F` is the type of `float64`.
use system_monitor_go.Base.{Text, ℤ}

pub record ProcessInfo (F : Type 0) : Type 0 where
  pub pid : ℤ
  pub ppid : ℤ
  pub name : Text
  pub command : Text
  pub user : Text
  pub status : Text
  pub cpu_time : F
  pub cpu_usage : F
  pub memory_rss : ℤ
  pub memory_vsz : ℤ
  pub nice : ℤ
  pub threads : ℤ
  pub open_files : ℤ
  pub start_time : ℤ
  pub io_read_bytes : ℤ
  pub io_write_bytes : ℤ
