-- ===== src/Terminal.antt =====
-- src/nbs-chat/terminal.c: the interactive terminal client.
pub mod Line
pub mod Redraw
pub mod Keys
pub mod Display
mod Tests
