-- ===== src/Profiler/Slots.antt =====
-- The tables of the profiler (src/profiler.c): the search for a slot, and lemmas.
mod Table
mod Walk
mod Look
unfoldable pub use Table.*
pub use Walk.*
pub use Look.*
