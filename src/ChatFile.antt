-- ===== src/ChatFile.antt =====
-- src/nbs-chat/chat_file.c: the chat file protocol.
pub mod Length
pub mod Participants
pub mod Message
pub mod Lines
pub mod Read
pub mod Send
pub mod Render
pub mod Cursors
pub mod Poll
pub mod Lock
pub mod Tests
