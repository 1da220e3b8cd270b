-- ===== src/Models/Memory.antt =====
-- internal/models/metrics.go: MemoryMetrics. `F` is the type of `float64`.
use system_monitor_go.Base.{Text, ℕ, ℤ}

pub record MemoryMetrics (F : Type 0) : Type 0 where
  pub total : ℤ
  pub used : ℤ
  pub free : ℤ
  pub available : ℤ
  pub buffers : ℤ
  pub cached : ℤ
  pub swap_total : ℤ
  pub swap_used : ℤ
  pub swap_free : ℤ
  pub usage_percent : F
  pub data_rate : ℕ
  pub using_slot_count : ℕ
  pub total_slot_count : ℕ
  pub form_factor : Text
  pub paged_pool_size : ℕ
  pub non_paged_pool_size : ℕ
