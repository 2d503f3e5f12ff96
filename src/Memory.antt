-- ===== src/Memory.antt =====
-- src/memory_opt.c: the timed cache, the memory pool and the leak tracker.
pub mod Hash
pub mod Cache
pub mod Cached
pub mod Replies
pub mod Pool
pub mod Tracker
mod Tests
