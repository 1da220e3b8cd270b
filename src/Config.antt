-- ===== src/Config.antt =====
-- internal/config/config.go: the settings, their defaults, and the file that holds them.
pub mod Settings
pub mod Storage
pub mod Loading
pub mod Reload
pub mod Frame
mod Tests
