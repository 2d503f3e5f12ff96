-- ===== src/Performance.antt =====
-- Benchmarks and readings of the system's load: src/performance.c and include/performance.h.
pub mod Benchmarks
pub mod Repeats
pub mod Network
pub mod Disks
pub mod Intervals
mod Tests
