-- ===== src/Models/Container.antt =====
-- internal/models/metrics.go: DockerContainer and its parts. `F` is the type of `float64`.
use system_monitor_go.Base.{List, Text, ℕ, ℤ}

pub record ContainerLabel : Type 0 where
  pub key : Text
  pub value : Text

pub record ContainerHealth : Type 0 where
  pub status : Text
  pub failing_streak : ℤ
  pub last_check_output : Text

pub record ContainerPort : Type 0 where
  pub container_port : Text
  pub host_port : Text
  pub protocol : Text

pub record ContainerNetwork : Type 0 where
  pub name : Text
  pub ip : Text
  pub mac : Text
  pub rx_bytes : ℕ
  pub tx_bytes : ℕ

pub record ContainerVolume : Type 0 where
  pub source : Text
  pub destination : Text
  pub mode : Text
  pub type : Text

pub record ContainerEnv : Type 0 where
  pub key : Text
  pub value : Text

pub record DockerContainer (F : Type 0) : Type 0 where
  pub id : Text
  pub name : Text
  pub image : Text
  pub status : Text
  pub created : Text
  pub cpu_usage : F
  pub memory_usage : ℤ
  pub memory_limit : ℤ
  pub memory_percent : F
  pub network_rx_bytes : ℤ
  pub network_tx_bytes : ℤ
  pub block_read : ℤ
  pub block_write : ℤ
  pub pids : ℤ
  pub restarts : ℤ
  pub labels : List ContainerLabel
  pub health : ContainerHealth
  pub ports : List ContainerPort
  pub networks : List ContainerNetwork
  pub volumes : List ContainerVolume
  pub env : List ContainerEnv
