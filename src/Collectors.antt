-- ===== src/Collectors.antt =====
-- internal/collectors: the collectors of the metrics, and the one that gathers their reports.
pub mod Goroutines
pub mod Master
pub mod Memory
pub mod System
pub mod Disk
pub mod Service
pub mod Container
pub mod Cpu
pub mod Process
pub mod Network
pub mod Composed
mod Tests
mod CacheTests
mod OverlapTests
