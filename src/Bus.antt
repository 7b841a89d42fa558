-- ===== src/Bus.antt =====
-- src/nbs-bus/bus.c: the event queue in a directory.
pub mod Event
pub mod Scan
pub mod Ack
pub mod Prune
pub mod Config
pub mod Check
pub mod Tests
