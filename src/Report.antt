-- ===== src/Report.antt =====
-- The report on the terminal: src/ascii.c.
pub mod Logos
pub mod DebianLogos
pub mod Layout
pub mod Lines
pub mod Columns
pub mod Fits
mod Tests
