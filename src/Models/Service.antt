-- ===== src/Models/Service.antt =====
-- internal/models/metrics.go: ServiceInfo. `F` is the type of `float64`.
use system_monitor_go.Base.{Bool, Text}

pub record ServiceInfo (F : Type 0) : Type 0 where
  pub name : Text
  pub status : Text
  pub enabled : Bool
  pub type : Text
  pub load_state : Text
  pub active_state : Text
  pub sub_state : Text
  pub memory_usage : Text
  pub cpu_usage : F
