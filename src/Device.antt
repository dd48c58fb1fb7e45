-- ===== src/Device.antt =====
-- src/device/mod.rs: the device state machine.
pub mod Effect
pub mod Entry
pub mod Manager
pub mod Machine
pub mod Sessions
pub mod Growth
pub mod Sweeping
pub mod Attribution
pub mod Learning
pub mod Merging
mod Tests
