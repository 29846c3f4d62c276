-- ===== src/Command.antt =====
-- internal/ircserver/cmd_*.go: one module for each command, or group of commands, of clients.
pub mod Simple
pub mod Message
pub mod Topic
pub mod Names
pub mod Who
pub mod Mode
pub mod Oper
pub mod Login
pub mod Nick
pub mod Join
pub mod Part
pub mod Invite
