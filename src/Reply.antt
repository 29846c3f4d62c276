-- ===== src/Reply.antt =====
-- The numbering of the messages of one reply context, kept by every command.
pub mod Send
pub mod Commands
pub mod Login
pub mod Services
pub mod Dispatch
