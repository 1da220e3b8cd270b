-- ===== src/Models/Host.antt =====
-- internal/models/metrics.go: SystemInfo: the host.
use system_monitor_go.Base.{Text, ℕ, ℤ}

pub record SystemInfo : Type 0 where
  pub hostname : Text
  pub os_name : Text
  pub platform : Text
  pub platform_family : Text
  pub os_version : Text
  pub os_architecture : Text
  pub os_kernel_version : Text
  pub boot_time : ℤ
  pub uptime : ℤ
  pub total_processes : ℕ
  pub total_threads : ℕ
  pub total_file_descriptors : ℕ
