-- ===== src/ServerCommand.antt =====
-- internal/ircserver/scmd_*.go and server_commands.go: the commands of the IRC services.
pub mod Channels
pub mod Sessions
pub mod Message
pub mod Mode
pub mod Nick
pub mod Server
