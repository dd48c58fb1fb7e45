-- ===== src/Analyze.antt =====
-- src/analyze: what watches the traffic for attacks.
pub mod Gateway
pub mod Window
pub mod Detector
pub mod ArpScan
pub mod IpConflict
pub mod ArpSpoof
pub mod RogueDhcp
pub mod GratuitousArp
pub mod IdentityChange
pub mod Chain
mod Tests
