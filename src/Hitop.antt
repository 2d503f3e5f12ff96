-- ===== src/Hitop.antt =====
-- The process monitor: src/hitop.c, src/process.c and include/hitop.h.
pub mod State
pub mod Input
pub mod Cursor
pub mod Refresh
pub mod Reading
pub mod Percents
pub mod Filter
pub mod Stale
pub mod Display
pub mod Rows
pub mod Shown
pub mod Meters
pub mod Meminfo
pub mod History
pub mod Cores
mod Tests
