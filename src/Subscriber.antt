-- ===== src/Subscriber.antt =====
-- The receiving side: the shared memory subscriber, and the subscriber that owns it.
pub mod Receiver
pub mod Handle
pub mod Loop
pub mod Subscribing
mod Tests
