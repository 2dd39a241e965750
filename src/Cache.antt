-- ===== src/Cache.antt =====
-- tools/cache/cache.go and frame/pkg/cache/cache.go: the LRU cache in memory, the cache that a
-- context carries, and the adapter by which the rest of the framework uses it.
pub mod Lru
pub mod Entries
pub mod Bounds
pub mod History
pub mod Reads
pub mod Scoped
pub mod Local
