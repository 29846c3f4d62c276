-- ===== src/Tests/Compaction.antt =====
-- A snapshot of a log that holds one old message, and of one that holds a new one.
use robustirc.Base.{
  inl, nat_eq, ◌<◌, [], arith, false, none, option_case, refl, some, ℕ, ◌+◌, ◌*◌, ◌∷◌, ◌≡◌,
}
use robustirc.Base.Assoc.{insert, lookup}
use robustirc.Compaction.{
  Fsm, RobustSnapshot, Setup, SnapshotResult, snapshot, snapshot_from, taken, compact,
  compact_message, compaction_end_of, delete_compacted, expiration_after, message_of, read_entry,
}
use robustirc.Compaction.Replay.{Entries, replay}
use robustirc.Compaction.Restore.{Restoring, persist, restore, restore_done, write_batch}
use robustirc.Compaction.Restoring.{AreStored, restore-persist}
use robustirc.Compaction.Snapshots.{AllOld, IsSnapshotOf, snapshot-IsSnapshotOf, snapshot-forgets}
use robustirc.Examples.{client_line}
use robustirc.LogStore.{IsLogStore}
use robustirc.OutputStream.{delete_input, new_output_stream}
use robustirc.RaftStore.{
  big_endian, first_index, first_plain, from_big_endian, from_digits, get_bulk_iterator, key_ltb,
  last_index, last_plain,
}
use robustirc.RaftStore.Order.{stable_bound}
use robustirc.RaftStore.Indexes.{as_logs}
use robustirc.RaftStore.Logs.{raft_laws, raft_log_store}
use robustirc.Config.{minute}
use robustirc.Robust.{Message, MessageType, timestamp, unix_epoch}
use robustirc.Fsm.{apply_robust_message}
use robustirc.Server.{IrcServer, new_irc_server}
use robustirc.Snapshot.{ServerSnapshot}
use robustirc.Snapshot.Decode.{
  Unmarshalled, restored, unmarshal, unmarshal_channels, unmarshal_config, unmarshal_holds,
  unmarshal_sessions, unmarshal_snapshot,
}
use robustirc.Snapshot.Encode.{
  marshal, marshal_channels, marshal_config, marshal_holds, marshal_sessions, snapshot_of,
}
use robustirc.Tests.LevelDb.{put}
use robustirc.Tests.RaftStore.{plain_db, plain_law, test_log}
use robustirc.Tests.Snapshot.{plain_encoding, plain_env}
use robustirc.Tests.Wire.{plain-IsLosslessWire, plain_wire}
use robustirc.Text.{has_prefix, text}
use robustirc.Wire.{
  LogValue, from_proto_message, log_from_bytes, message_bytes, new_message_from_bytes, proto,
  proto_message, with_index,
}

abbrev pub old_server : IrcServer
old_server = new_irc_server (text "net") 0

abbrev pub old_bytes : ServerSnapshot
old_bytes = marshal ⦃enc = plain_encoding⦄ 2 old_server

abbrev pub plain_setup : Setup
plain_setup = record {
  wire = plain_wire;
  enc = plain_encoding;
  base64 = λ s. [];
  unbase64 = λ t. some old_bytes;
  logs = raft_log_store plain_wire plain_db plain_law;
  from_string = λ t. none;
  message_offset = 0;
  network = text "net";
}

abbrev plain_logs : IsLogStore plain_setup.logs
plain_logs = raft_laws plain_wire plain_db plain_law

abbrev create_message : Message
create_message = record (client_line 3 0) {
  type = MessageType.create_session;
  payload = text "auth";
}

abbrev entry_of : ℕ → LogValue plain_wire
entry_of index = proto (test_log index create_message)

abbrev one_log : ℕ → plain_setup.logs.Db
one_log index = plain_setup.logs.store index (entry_of index) plain_setup.logs.empty

abbrev fsm_of : ℕ → Fsm ⦃env = plain_env⦄ plain_setup
fsm_of index = record {
  ircstore = one_log index;
  skip_deletion_for_canary = false;
  last_snapshot_state = [];
  session_expiration = 0;
  output = new_output_stream;
}

abbrev taken_fsm : SnapshotResult ⦃env = plain_env⦄ plain_setup → Fsm ⦃env = plain_env⦄ plain_setup
taken_fsm (taken snap fsm) = fsm
taken_fsm _ = fsm_of 0

abbrev taken_snap :
    SnapshotResult ⦃env = plain_env⦄ plain_setup → RobustSnapshot ⦃env = plain_env⦄ plain_setup
taken_snap (taken snap fsm) = snap
taken_snap _ = record { first_index = 0; last_index = 0; state = old_bytes; store = one_log 0 }

abbrev late : ℕ
late = unix_epoch + 1000 * minute

abbrev result : SnapshotResult ⦃env = plain_env⦄ plain_setup
result = snapshot ⦃env = plain_env⦄ plain_setup late 0 (fsm_of 3)

abbrev snap : RobustSnapshot ⦃env = plain_env⦄ plain_setup
snap = taken_snap result

abbrev fsm_after : Fsm ⦃env = plain_env⦄ plain_setup
fsm_after = taken_fsm result

takes : snapshot ⦃env = plain_env⦄ plain_setup late 0 (fsm_of 3) ≡ taken snap fsm_after
unfolding snapshot snapshot_from compact compact_message delete_compacted read_entry message_of
    expiration_after compaction_end_of first_index last_index get_bulk_iterator first_plain
    last_plain big_endian from_digits from_big_endian key_ltb text lookup put log_from_bytes
    new_message_from_bytes apply_robust_message timestamp marshal snapshot_of delete_input
    has_prefix as_logs message_bytes with_index from_proto_message proto_message new_output_stream
takes = refl

one_log-IsDb : (index : ℕ) → index < stable_bound → plain_logs.IsDb (one_log index)
unfolding put raft_laws
one_log-IsDb index small = (inl (index, entry_of index, refl, small, refl), tt)

snapshot-IsSnapshotOf_example :
    IsSnapshotOf ⦃env = plain_env⦄ plain_setup plain_logs late 0 (fsm_of 3) snap fsm_after
snapshot-IsSnapshotOf_example =
    snapshot-IsSnapshotOf ⦃env = plain_env⦄ plain_setup plain_logs late 0 (fsm_of 3) fsm_after snap
      (one_log-IsDb 3 (omega arith)) takes

is_old :
    AllOld ⦃env = plain_env⦄ plain_setup
      (compaction_end_of ⦃env = plain_env⦄ plain_setup late (fsm_of 3))
      (plain_logs.entries (one_log 3))
unfolding raft_laws as_logs put read_entry compaction_end_of log_from_bytes message_of
    new_message_from_bytes message_bytes with_index from_proto_message proto_message timestamp
is_old = ((λ msg read. ground arith), tt)

abbrev later : Fsm ⦃env = plain_env⦄ plain_setup
later = record fsm_after { ircstore = one_log 9 }

snapshot-forgets_example :
    (snap.first_index ≡ 3)
    × (snapshot ⦃env = plain_env⦄ plain_setup late 0 later
        ≡ snapshot_from ⦃env = plain_env⦄ plain_setup late 9 9 later
            (new_irc_server (text "testnetwork") 0))
unfolding lookup first_index last_index first_plain last_plain put has_prefix text snapshot_from
    big_endian from_big_endian from_digits
snapshot-forgets_example =
    snapshot-forgets ⦃env = plain_env⦄ plain_setup plain_logs late 0 (fsm_of 3) fsm_after later snap
      9 late 0 (one_log-IsDb 3 (omega arith)) takes is_old (omega arith) refl refl refl

abbrev kept_snapshot : RobustSnapshot ⦃env = plain_env⦄ plain_setup
kept_snapshot = record { first_index = 3; last_index = 3; state = old_bytes; store = one_log 3 }

abbrev kept_entries : Entries ⦃env = plain_env⦄ plain_setup
kept_entries = (3, entry_of 3) ∷ []

abbrev restored_server : Unmarshalled → IrcServer
restored_server (restored index i) = i
restored_server _ = old_server

abbrev base : IrcServer
base =
    restored_server
      (unmarshal ⦃env = plain_env⦄ ⦃enc = plain_encoding⦄ old_bytes (new_irc_server (text "net") 0))

abbrev server : IrcServer
server = option_case (replay ⦃env = plain_env⦄ plain_setup kept_entries base) old_server (λ i. i)

are_stored : AreStored ⦃env = plain_env⦄ plain_setup kept_entries
unfolding message_of new_message_from_bytes message_bytes with_index from_proto_message
    proto_message
are_stored = (
  record {
    bytes = test_log 3 create_message;
    in_proto = refl;
    entry = test_log 3 create_message;
    decodes = refl;
    own_index = refl;
    is_a_command = refl;
    msg = record create_message { id = record { id = 3; reply = 0 } };
    parses = refl;
    no_state = refl;
  },
  tt,
)

lists : plain_setup.logs.bulk 3 4 (one_log 3) ≡ kept_entries
unfolding as_logs get_bulk_iterator put key_ltb big_endian from_big_endian from_digits
lists = refl

reads :
    unmarshal ⦃env = plain_env⦄ ⦃enc = plain_encoding⦄ old_bytes (new_irc_server (text "net") 0)
    ≡ restored 2 base
unfolding unmarshal unmarshal_snapshot unmarshal_sessions unmarshal_channels unmarshal_holds
    unmarshal_config marshal snapshot_of marshal_sessions marshal_channels marshal_holds
    marshal_config new_irc_server
reads = refl

replays : replay ⦃env = plain_env⦄ plain_setup kept_entries base ≡ some server
unfolding replay read_entry log_from_bytes message_of new_message_from_bytes message_bytes
    apply_robust_message with_index from_proto_message proto_message
replays = refl

restore-persist_example :
    (r : Restoring ⦃env = plain_env⦄ plain_setup) × (restore ⦃env = plain_env⦄ plain_setup
        (persist ⦃env = plain_env⦄ plain_setup kept_snapshot)
        0
        (fsm_of 3)
      ≡ restore_done r)
    × (r.server ≡ server)
    × (r.fsm.last_snapshot_state ≡ insert 2 old_bytes [])
    × (r.fsm.ircstore
        ≡ write_batch ⦃env = plain_env⦄ plain_setup kept_entries plain_setup.logs.empty)
restore-persist_example =
    restore-persist ⦃env = plain_env⦄ plain_setup kept_snapshot kept_entries 0 2 (fsm_of 3) base
      server plain-IsLosslessWire refl lists are_stored reads replays
