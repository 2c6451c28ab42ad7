-- ===== src/Chat.antt =====
-- Chat rooms and their messages: app/repositories/chat.py and app/services/chat_service.py.
pub mod Repository
pub mod Access
pub mod Service
pub mod Pages
pub mod Bans
pub mod Handshake
pub mod Socket
mod Tests
