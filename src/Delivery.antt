-- ===== src/Delivery.antt =====
-- Who gets a message to a channel: sendChannelButOne of ircserver.go and cmd_privmsg.go.
pub mod Sent
pub mod Channel
