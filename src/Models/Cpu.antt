-- ===== src/Models/Cpu.antt =====
-- internal/models/metrics.go: CPUMetrics and CPUCore. `F` is the type of `float64`.
use system_monitor_go.Base.{Bool, List, Text, ℤ}

pub record CpuCore (F : Type 0) : Type 0 where
  pub id : ℤ
  pub usage : F
  pub temperature : F

pub record CpuMetrics (F : Type 0) : Type 0 where
  pub architecture : Text
  pub model : Text
  pub vendor : Text
  pub cache_size : ℤ
  pub clock_speed : F
  pub total_cores : ℤ
  pub total_logical_cores : ℤ
  pub usage : F
  pub temperature : F
  pub has_vmx : Bool
  pub has_svm : Bool
  pub has_avx : Bool
  pub has_avx2 : Bool
  pub has_neon : Bool
  pub has_sve : Bool
  pub is_hyperthreading : Bool
  pub l1_cache_size : ℤ
  pub l2_cache_size : ℤ
  pub l3_cache_size : ℤ
  pub base_clock_speed : F
  pub max_clock_speed : F
  pub min_clock_speed : F
  pub cores : List (CpuCore F)
