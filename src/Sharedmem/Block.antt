-- ===== src/Sharedmem/Block.antt =====
-- `SharedMemoryBlock`: the table of blocks in the segment, with its counters of registered clients.
pub mod State
pub mod Operations
pub mod Transfer
pub mod Validity
pub mod Change
pub mod Counts
pub mod Access
pub mod Resize
pub mod Allocate
pub mod Lookup
pub mod Failures
pub mod Ends
pub mod Exchange
pub mod Reallocate
pub mod Release
