-- ===== src/Bridge.antt =====
-- src/nbs-chat/bus_bridge.c: the events that a message of the chat becomes.
pub mod Mentions
pub mod Events
mod Tests
