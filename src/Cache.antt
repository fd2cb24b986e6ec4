-- ===== src/Cache.antt =====
-- src/citadel/services/cache: the byte-budgeted cache in memory and the memo on it.
pub mod Ram
pub mod Memoize
