-- ===== src/Models/Network.antt =====
-- internal/models/metrics.go: NetworkMetrics. `F` is the type of `float64`.
use system_monitor_go.Base.{Text, ℕ, ℤ}

pub record NetworkMetrics (F : Type 0) : Type 0 where
  pub interface : Text
  pub ipv4 : Text
  pub ipv6 : Text
  pub mac : Text
  pub mtu : ℤ
  pub speed : ℕ
  pub status : Text
  pub rx_bytes : ℤ
  pub tx_bytes : ℤ
  pub rx_packets : ℤ
  pub tx_packets : ℤ
  pub rx_errors : ℤ
  pub tx_errors : ℤ
  pub rx_dropped : ℤ
  pub tx_dropped : ℤ
  pub rx_bytes_per_sec : F
  pub tx_bytes_per_sec : F
  pub connection_type : Text
