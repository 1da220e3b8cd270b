-- ===== src/Models.antt =====
-- internal/models/metrics.go: the records that the collectors fill and the sender prints.
pub mod Host
pub mod Cpu
pub mod Memory
pub mod Disk
pub mod Network
pub mod Process
pub mod Container
pub mod Service
pub mod Report
