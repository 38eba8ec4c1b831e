-- ===== src/Ddos.antt =====
-- crates/waf-engine/src/checks/ddos: counters, detectors and bans.
pub mod Counter
pub mod Ban
pub mod Median
pub mod Detect
pub mod Check
