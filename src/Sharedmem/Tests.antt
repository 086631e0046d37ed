-- ===== src/Sharedmem/Tests.antt =====
-- The theorems on blocks at concrete inputs, over a small segment.
pub mod Slots
pub mod States
pub mod Blocks
mod Sessions
