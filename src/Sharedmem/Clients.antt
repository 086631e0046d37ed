-- ===== src/Sharedmem/Clients.antt =====
-- The counters of registered clients and the two mutexes of a block, between many threads.
pub mod Phases
mod Totals
mod Counting
mod Exclusion
mod Waiting
mod Progress
mod Race
mod Tests
