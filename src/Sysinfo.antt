-- ===== src/Sysinfo.antt =====
-- The record of facts about the system: src/sysinfo.c and include/sysfetch.h.
pub mod Texts
pub mod State
pub mod Facts
pub mod Tables
pub mod Desktop
pub mod Gather
pub mod Uptime
pub mod Gpus
pub mod Twice
pub mod Tests
