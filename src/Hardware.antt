-- ===== src/Hardware.antt =====
-- The reader of hardware facts: src/hardware.c and include/hardware.h.
pub mod Sysfs
pub mod State
pub mod Devices
pub mod Sensors
pub mod Detect
pub mod Aliases
pub mod Bounds
pub mod Detected
pub mod Inputs
pub mod Readings
pub mod Slots
mod Tests
