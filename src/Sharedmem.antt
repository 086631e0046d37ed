-- ===== src/Sharedmem.antt =====
-- The shared memory transport: names, the segment, block descriptors and the block manager.
pub mod Names
pub mod Segment
pub mod Descriptor
pub mod Block
pub mod Clients
pub mod Session
pub mod Tests
