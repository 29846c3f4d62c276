-- ===== src/Compaction.antt =====
-- statemachine.go and compaction.go: the state machine and its Snapshot.
pub mod Restore
pub mod Apply
pub mod Replay
pub mod Loop
pub mod Started
pub mod Steps
pub mod Snapshots
pub mod Restoring
use robustirc.Base.{
  Bool, Option, [], if◌then◌else◌, ltb, nat_beq, nat_eq, none, some, suc, true, false, ℕ, ◌+◌, ◌*◌,
  ◌-◌, ◌∷◌,
}
use robustirc.Base.Assoc.{Map, insert, lookup}
use robustirc.Config.{Network, minute, second}
use robustirc.Fsm.{Applied, Node, applied, apply_robust_message, message_of_death_panic}
use robustirc.Irc.{Env}
use robustirc.LogStore.{LogStore}
use robustirc.OutputStream.{OutputStream, delete_input}
use robustirc.Robust.{Message, MessageType, id_from_raft_index, timestamp}
use robustirc.Server.{IrcServer, new_irc_server}
use robustirc.Snapshot.{Encoding}
use robustirc.Snapshot.Decode.{restored, unmarshal, unmarshal_error, unmarshal_panic}
use robustirc.Snapshot.Encode.{marshal}
use robustirc.Text.{Text, text}
use robustirc.Wire.{
  EntryData, LogType, LogValue, RaftLog, Wire, command, log_from_bytes, new_message_from_bytes,
}

-- robustirc.go: expireSessionsInterval
abbrev pub expire_sessions_interval : ℕ
expire_sessions_interval = 10 * second

-- What the state machine is given: the encoders, base64.StdEncoding of a snapshot, the store of
-- irclog, config.FromString, the variable MessageOffset, and the name of the network.
pub record Setup : Type 1 where
  pub wire : Wire
  pub enc : Encoding
  pub base64 : enc.Bytes → Text
  pub unbase64 : Text → Option enc.Bytes
  pub logs : LogStore (LogValue wire)
  pub from_string : Text → Option Network
  pub message_offset : ℕ
  pub network : Text

abbrev pub is_command : LogType → Bool
is_command command = true
is_command _ = false

module _ ⦃env : Env⦄ (setup : Setup) where
  -- FSM, with the variable outputStream
  pub record Fsm : Type 0 where
    pub ircstore : setup.logs.Db
    pub skip_deletion_for_canary : Bool
    pub last_snapshot_state : Map ℕ setup.enc.Bytes
    pub session_expiration : ℕ
    pub output : OutputStream

  -- The message of a log entry; none where NewMessageFromBytes panics.
  unfoldable pub message_of : RaftLog (EntryData setup.wire) → Option Message
  message_of l =
      new_message_from_bytes setup.wire l.payload (id_from_raft_index setup.message_offset l.index)

  -- applyRobustMessage also keeps the expiration of a new configuration.
  unfoldable pub expiration_after : Message → MessageType → ℕ → ℕ
  expiration_after msg MessageType.config exp = elim (setup.from_string msg.payload) [
    | none ↦ exp
    | some cfg ↦ cfg.session_expiration
  ]
  expiration_after msg _ exp = exp

  -- How the loop of Snapshot ends: with the index of the first message that is kept, the state
  -- machine and the temporary server.
  pub data Compacted : Type 0 where
    compacted : ℕ → Fsm → IrcServer → Compacted
    compact_error : Fsm → Compacted
    compact_panic : Compacted

  -- outputStream.Delete and ircstore.DeleteRange, unless they are skipped; none is a panic
  unfoldable pub delete_compacted : ℕ → Message → Fsm → Option Fsm
  delete_compacted i parsed fsm =
      if fsm.skip_deletion_for_canary
      then some fsm
      else elim (delete_input parsed.id.id fsm.output) [
        | none ↦ none
        | some output ↦
            some
              (record fsm { output = output; ircstore = setup.logs.delete_range i i fsm.ircstore })
      ]

  -- One message that is old enough: it is applied to the temporary server, and deleted; none is a
  -- panic. The error of applyRobustMessage is not looked at.
  unfoldable pub compact_message : ℕ → Message → Fsm → IrcServer → Option (Fsm × IrcServer)
  compact_message i parsed fsm tmp =
      let applied_to : Fsm = record fsm {
        session_expiration = expiration_after parsed parsed.type fsm.session_expiration;
      } in
      elim (apply_robust_message setup.from_string parsed parsed.type
        (record { server = tmp; output = none })) [
          | message_of_death_panic ↦ none
          | applied n err ↦ elim (delete_compacted i parsed applied_to) [
            | none ↦ none
            | some fsm' ↦ some (fsm', n.server)
          ]
        ]

  -- What the loop of Snapshot makes of a value: it is skipped where it does not decode, it is an
  -- error where it is not a command, NewMessageFromBytes panics, or there is a message.
  pub data ReadEntry : Type 0 where
    skipped not_command unparsable : ReadEntry
    readable : Message → ReadEntry

  unfoldable pub read_entry : LogValue setup.wire → ReadEntry
  read_entry value = elim (log_from_bytes setup.wire value) [
    | none ↦ skipped
    | some nlog ↦
        if is_command nlog.type
        then elim (message_of nlog) [ none ↦ unparsable | some parsed ↦ readable parsed ]
        else not_command
  ]

  -- The loop of Snapshot over what the iterator still visits.
  unfoldable pub compact :
      (compaction_end : ℕ) → Map ℕ (LogValue setup.wire) → ℕ → Fsm → IrcServer → Compacted
  compact compaction_end [] first fsm tmp = compacted first fsm tmp
  compact compaction_end ((i, value) ∷ rest) first fsm tmp =
      let next = compact compaction_end rest first in
      elim (read_entry value) [
        | skipped ↦ next fsm tmp
        | not_command ↦ compact_error fsm
        | unparsable ↦ compact_panic
        | readable parsed ↦
            if ltb compaction_end (timestamp parsed)
            then compacted i fsm tmp
            else elim (compact_message i parsed fsm tmp) [
              | none ↦ compact_panic
              | some (fsm', tmp') ↦ next fsm' tmp'
            ]
      ]

  -- robustSnapshot
  pub record RobustSnapshot : Type 0 where
    pub first_index : ℕ
    pub last_index : ℕ
    pub state : setup.enc.Bytes
    pub store : setup.logs.Db

  pub data SnapshotResult : Type 0 where
    taken : RobustSnapshot → Fsm → SnapshotResult
    snapshot_error : Fsm → SnapshotResult
    snapshot_panic : SnapshotResult

  -- for key := range fsm.lastSnapshotState, but the one that is kept
  unfoldable pub keep_state : ℕ → Map ℕ setup.enc.Bytes → Map ℕ setup.enc.Bytes
  keep_state kept [] = []
  keep_state kept ((key, state) ∷ m) =
      let rest = keep_state kept m in if nat_beq key kept then (key, state) ∷ rest else rest

  -- The expiration with the default, and the interval.
  unfoldable pub compaction_end_of : ℕ → Fsm → ℕ
  compaction_end_of compaction_start fsm =
      let exp = if nat_beq fsm.session_expiration 0 then 10 * minute else fsm.session_expiration in
      compaction_start - (exp + expire_sessions_interval)

  -- Snapshot from the temporary server on
  unfoldable pub snapshot_from : ℕ → ℕ → ℕ → Fsm → IrcServer → SnapshotResult
  snapshot_from compaction_start first last fsm tmp =
      elim (compact (compaction_end_of compaction_start fsm)
        (setup.logs.bulk first (suc last) fsm.ircstore) first fsm tmp) [
          | compact_panic ↦ snapshot_panic
          | compact_error fsm' ↦ snapshot_error fsm'
          | compacted first' fsm' tmp' ↦
              let state = marshal ⦃enc = setup.enc⦄ (first' - 1) tmp' in
              taken
                (record {
                  first_index = first';
                  last_index = last;
                  state = state;
                  store = fsm'.ircstore;
                })
                (record fsm' {
                  last_snapshot_state = insert (first' - 1) state fsm'.last_snapshot_state;
                })
        ]

  -- Snapshot, at a time, with the creation time of the temporary server
  unfoldable pub snapshot : ℕ → ℕ → Fsm → SnapshotResult
  snapshot compaction_start creation fsm =
      let first = setup.logs.first_index fsm.ircstore in
      let last = setup.logs.last_index fsm.ircstore in
      let tmp = new_irc_server (text "testnetwork") creation in
      if ltb first 1
      then snapshot_error fsm
      else elim (lookup (first - 1) fsm.last_snapshot_state) [
        | none ↦ snapshot_from compaction_start first last fsm tmp
        | some old_state ↦ elim (unmarshal ⦃enc = setup.enc⦄ old_state tmp) [
          | unmarshal_panic ↦ snapshot_panic
          | unmarshal_error tmp' ↦ snapshot_error fsm
          | restored index tmp' ↦
              snapshot_from compaction_start first last
                (record fsm {
                  last_snapshot_state = keep_state (first - 1) fsm.last_snapshot_state;
                })
                tmp'
        ]
      ]
