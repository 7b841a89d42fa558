-- ===== src/ChatCli.antt =====
-- src/nbs-chat/main.c: the commands of nbs-chat.
pub mod Options
pub mod Window
pub mod Search
pub mod Commands
pub mod Unread
mod Tests
