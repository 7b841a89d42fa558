-- ===== src/Remote.antt =====
-- src/nbs-chat/remote.c: the SSH proxy for nbs-chat.
pub mod Config
pub mod Escape
pub mod Shell
pub mod Command
pub mod Argv
pub mod Run
mod Tests
