-- ===== src/Cache.antt =====
-- internal/cache: the breaker in front of the cache server, the invalidations it owes, and versions.
pub mod Breaker
pub mod Pending
pub mod Versions
