-- ===== src/Privilege.antt =====
-- Which sessions can change the server by which commands.
pub mod Send
pub mod Channel
pub mod Mode
pub mod Network
pub mod Nick
