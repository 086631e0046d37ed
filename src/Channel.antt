-- ===== src/Channel.antt =====
-- A publisher and the subscribers of one topic, side by side.
mod Pass
mod Linked
mod First
mod Delivers
mod Tests
