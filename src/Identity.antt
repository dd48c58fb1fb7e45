-- ===== src/Identity.antt =====
-- src/identity: raw signals in, one display name out.
pub mod Scorer
pub mod Oui
pub mod Classification
