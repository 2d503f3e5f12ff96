-- ===== src/Display.antt =====
-- The display engine: src/advanced_display.c and include/advanced_display.h.
pub mod Widgets
pub mod Drawing
pub mod Frames
mod Tests
