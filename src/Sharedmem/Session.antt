-- ===== src/Sharedmem/Session.antt =====
-- The block manager as its clients see it: a directory of names and sizes.
pub mod Directory
pub mod Steps
mod Kept
mod Simulation
pub mod Refinement
