-- ===== src/Profiler.antt =====
-- The profiler: src/profiler.c and include/profiler.h.
pub mod Slots
pub mod State
pub mod Calls
pub mod Stats
pub mod Tables
pub mod Measures
pub mod Nested
pub mod Report
pub mod Sorting
pub mod Top
pub mod Bounds
pub mod Sampler
mod Tests
