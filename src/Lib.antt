-- ===== src/Lib.antt =====
-- RobustIRC: an IRC network without netsplits. Every node keeps the same log of messages (raft) and
-- applies it to its own IRC server; what the server replies goes into an output stream, from which
-- the HTTP API serves the clients.
--
-- The parts, and the files that model them:
--   * internal/robust/robust.go, internal/config/config.go: ids and messages of the log, the
--     network configuration. Robust, Config.
--   * internal/ircserver/ircserver.go: the state (Session, channel, IRCServer) in Server, with a heap
--     for the session pointers that the maps share; the life of sessions and channels, throttling and
--     expiry in Sessions; names and passwords in Nickname and Text/Case; Replyctx and the send
--     functions in Run and Send; ProcessMessage and the tables of commands in Dispatch.
--   * internal/ircserver/cmd_*.go and commands.go: the commands of clients, Command/*.
--   * internal/ircserver/scmd_*.go and server_commands.go: the commands of the services,
--     ServerCommand/*.
--   * internal/ircserver/modes.go: Modes.
--   * internal/ircserver/serialize.go, internal/proto/snapshot.proto: the state of a server as a
--     protobuf message, Snapshot/Encode and Snapshot/Decode.
--   * internal/outputstream/outputstream.go: OutputStream, over an ordered list of keys for LevelDB;
--     serialization.go, the bytes of a batch, in OutputStream/Batch.
--   * internal/robust/robust.go, internal/raftlog/raftlog.go: messages and log entries as they are
--     written and read, Wire; PrivacyFilter and internal/privacy/filter.go, Privacy.
--   * internal/raftstore/leveldb.go: logs and settings in a LevelDB database, RaftStore. LogStore is
--     its interface, with the laws that the state machine relies on (IsLogStore) and all that a store
--     of logs promises below a bound of the indexes (IsLogMap).
--   * statemachine.go: applyRobustMessage and sendMessages, Fsm; Apply, and applyProto with what it
--     does on a panic, in Compaction/Apply; Snapshot in Compaction, and, with compaction.go, Persist
--     and Restore in Compaction/Restore, for any store with the laws IsLogStore.
--   * internal/api/api.go, postmessage.go, deletesession.go: from a request for a session to the
--     message that is handed to raft, Api. What net/http, encoding/json and net decode is the record
--     Request and two arguments.
--   * internal/timesafeguard/timesafeguard.go: the decision whether the clocks agree, TimeSafeguard.
-- A handler is an action on the server and the reply (Run): it returns, or it panics where the code
-- dereferences nil or indexes out of range, which applyProto turns into a message of death.
-- The proofs stand below the part that they are about, and in Reply (the numbering of replies),
-- Delivery (who gets a message to a channel), Privilege (who may change what) and Panic (inputs on
-- which a handler fails). Run/Keeps and Run/Guarded hold the rules for actions; Examples and Tests
-- the data and the concrete inputs.
--
-- Conventions and bounds: a text is a list of code points below 256, with the case tables of
-- Go for them. A time is the number of nanoseconds since the year 1, so it is not negative. A
-- uint64 that the program counts up keeps its wrap-around (reply ids, the search key of GetNext, the
-- end of DeleteRange), and the delay of ThrottleUntil is the bits of an int64. Other durations are
-- numbers without a bound.
-- Go maps are association lists with one entry for a key; a range visits them in the list's order,
-- where Go leaves the order open. Loops are structural recursion; only the digits of a number are
-- taken by fuel, one more than the number, of which each digit divides by the base (Text/Digits). The
-- functions of other packages that the code calls
-- (parsing and printing of IRC messages, regular expressions, HMAC, number and time formats) are the
-- fields of Env in Irc, an argument of every definition that uses them; config.FromString is an
-- argument of Fsm. The encoders (protobuf, JSON, durations, hexadecimal, base64) are the records
-- Encoding, Wire and Setup, and LevelDB the record LevelDb; IsLossless, IsLosslessWire and IsLevelDb
-- say what the theorems assume of them.
--
-- Not modelled: the bytes of protobuf and JSON and of an IRC message; snapshots in the older JSON
-- format and their conversion; opening and closing databases, and their errors; the lengths
-- between the values of a persisted snapshot; the rest of the HTTP API (creating sessions,
-- reading messages, configuration, status pages, proxying to the leader); what raft answers;
-- metrics and log lines, locks, the cache of the output stream, the PANIC command of tests, and
-- the operators' tools.
pub mod Base
pub mod Text
pub mod Irc
pub mod Config
pub mod Robust
pub mod Server
pub mod Run
pub mod Send
pub mod Sessions
pub mod Modes
pub mod Nickname
pub mod Handler
pub mod Command
pub mod ServerCommand
pub mod Dispatch
pub mod OutputStream
pub mod Fsm
pub mod Snapshot
pub mod Wire
pub mod Privacy
pub mod LogStore
pub mod RaftStore
pub mod Compaction
pub mod Api
pub mod TimeSafeguard
pub mod Reply
pub mod Privilege
pub mod Delivery
pub mod Panic
pub mod Examples
pub mod Tests
