-- ===== src/Config.antt =====
-- src/config.rs: the settings that the modelled parts read. Durations are in nanoseconds.
pub mod Timeouts
pub mod Notifying
pub mod Numbers
pub mod Duration
pub mod Clock
pub mod Security
mod Tests
