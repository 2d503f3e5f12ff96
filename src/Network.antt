-- ===== src/Network.antt =====
-- The reader of network facts: src/network.c and include/network.h.
pub mod State
pub mod Interfaces
pub mod Tables
pub mod Probes
pub mod Hops
pub mod Listed
pub mod Wireless
pub mod Gateways
pub mod States
pub mod Times
mod Tests
