-- ===== src/Rules.antt =====
-- crates/waf-engine/src/rules: the registry of the loaded rules, and the custom rules.
pub mod Registry
pub mod Custom
