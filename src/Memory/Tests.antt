-- ===== src/Memory/Tests.antt =====
-- Runs and instances of the theorems on src/memory_opt.c.
mod CacheTests
mod PoolTests
mod TrackerTests
