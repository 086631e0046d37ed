-- ===== src/Publisher.antt =====
-- The sending side: the shared memory publisher, its plugin, and the publisher that owns plugins.
pub mod Sender
pub mod Plugins
pub mod Delivery
pub mod Initialise
pub mod Counting
pub mod Tests
pub mod Advertise
mod Advertised
mod Overwritten
