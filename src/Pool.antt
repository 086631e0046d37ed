-- ===== src/Pool.antt =====
-- `Timer` of timer.h and `ReleasePool` of release_pool.h.
pub mod State
mod Sweep
mod Release
mod Tests
