-- ===== src/Capture.antt =====
-- src/capture: what stands between an interface and the state machine.
pub mod Dedup
pub mod Dns
mod Tests
