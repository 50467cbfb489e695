-- ===== src/Config.antt =====
-- internal/platform/config/config.go: the settings of the process, read from the environment.
pub mod Problems
pub mod Settings
pub mod Load
pub mod Validity
pub mod Acceptance
