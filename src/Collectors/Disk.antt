-- ===== src/Collectors/Disk.antt =====
-- internal/collectors/disk.go: the collector of the disks.
pub mod Device
pub mod Lookup
pub mod Metrics
pub mod Rates
pub mod Collection
pub mod Expected
pub mod Mounts
pub mod Ends
mod Tests
