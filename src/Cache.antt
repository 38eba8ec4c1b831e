-- ===== src/Cache.antt =====
-- crates/gateway/src/cache and response_cache_integration.rs: the response cache.
pub mod Key
pub mod Rule
pub mod Policy
pub mod Tags
pub mod Store
pub mod Stats
pub mod Facade
pub mod Capture
