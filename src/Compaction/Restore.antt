-- ===== src/Compaction/Restore.antt =====
-- compaction.go and statemachine.go: Persist and Restore, in the protobuf encoding. The file of a
-- snapshot is the list of the log values in it, without the length in front of each.
use robustirc.Base.{
  Bool, List, [], if◌then◌else◌, length, ltb, nat_eq, none, option_case, some, suc, true, false, ℕ,
  ◌++◌, ◌∷◌,
}
use robustirc.Base.Assoc.{Map, insert, values}
use robustirc.Compaction.{Fsm, RobustSnapshot, Setup, expiration_after, message_of}
use robustirc.Fsm.{applied, apply_robust_message, message_of_death_panic}
use robustirc.Irc.{Env}
use robustirc.OutputStream.{new_output_stream}
use robustirc.Robust.{Message, MessageType}
use robustirc.Server.{IrcServer, new_irc_server, zero_id}
use robustirc.Snapshot.Decode.{restored, unmarshal, unmarshal_error, unmarshal_panic}
use robustirc.Wire.{EntryData, LogValue, RaftLog, command, json, message_bytes, proto}

abbrev pub is_state : MessageType → Bool
is_state MessageType.state = true
is_state _ = false

module _ ⦃env : Env⦄ (setup : Setup) where
  -- The message that carries the state, in Persist
  abbrev pub state_message : setup.enc.Bytes → Message
  state_message state = record {
    id = zero_id;
    session = zero_id;
    type = MessageType.state;
    payload = setup.base64 state;
    unix_nano = 0;
    servers = [];
    current_master = [];
    client_message_id = 0;
    revision = 0;
    remote_addr = [];
  }

  unfoldable pub state_log : setup.enc.Bytes → RaftLog (EntryData setup.wire)
  state_log state = record {
    index = 0;
    term = 0;
    type = command;
    payload = message_bytes setup.wire true (state_message state);
    extensions = [];
  }

  -- Persist
  unfoldable pub persist : RobustSnapshot setup → List (LogValue setup.wire)
  persist s =
      proto (setup.wire.encode_log (state_log s.state))
      ∷ values (setup.logs.bulk s.first_index (suc s.last_index) s.store)

  -- The variables of decodeProtobuf, with ircServer.
  pub record Restoring : Type 0 where
    pub fsm : Fsm setup
    pub server : IrcServer
    pub batch : Map ℕ (LogValue setup.wire)

  pub data RestoreResult : Type 0 where
    restore_done : Restoring → RestoreResult
    restore_error : Restoring → RestoreResult
    restore_panic : RestoreResult

  -- ircstore.WriteBatch
  unfoldable pub write_batch : Map ℕ (LogValue setup.wire) → setup.logs.Db → setup.logs.Db
  write_batch [] db = db
  write_batch ((i, value) ∷ batch) db = write_batch batch (setup.logs.store i value db)

  unfoldable pub flush : Restoring → Restoring
  flush r = record r {
    fsm = record r.fsm { ircstore = write_batch r.batch r.fsm.ircstore };
    batch = [];
  }

  -- The state message: base64, Unmarshal onto ircServer, fsm.lastSnapshotState
  unfoldable pub restore_state : Message → Restoring → RestoreResult
  restore_state msg r = elim (setup.unbase64 msg.payload) [
    | none ↦ restore_error r
    | some state ↦ elim (unmarshal ⦃enc = setup.enc⦄ state r.server) [
      | unmarshal_panic ↦ restore_panic
      | unmarshal_error server ↦ restore_error (record r { server = server })
      | restored index server ↦ restore_done (record r {
        server = server;
        fsm = record r.fsm { last_snapshot_state = insert index state r.fsm.last_snapshot_state };
      })
    ]
  ]

  -- applyProto onto ircServer and outputStream: a panic in it ends the process.
  unfoldable pub restore_apply : Message → Restoring → RestoreResult
  restore_apply msg r =
      elim (apply_robust_message setup.from_string msg msg.type
        (record { server = r.server; output = some r.fsm.output })) [
          | message_of_death_panic ↦ restore_panic
          | applied n err ↦ restore_done (record r {
            server = n.server;
            fsm = record r.fsm {
              session_expiration = expiration_after setup msg msg.type r.fsm.session_expiration;
              output = option_case n.output r.fsm.output (λ o. o);
            };
          })
        ]

  -- batch.Put, and WriteBatch when there are more than 100
  unfoldable pub put_entry : ℕ → LogValue setup.wire → Restoring → Restoring
  put_entry i value r =
      let put : Restoring = record r { batch = r.batch ++ (i, value) ∷ [] } in
      if ltb 100 (length put.batch) then flush put else put

  -- One round of the loop of decodeProtobuf, for one length-prefixed value.
  unfoldable pub restore_value : LogValue setup.wire → Restoring → RestoreResult
  restore_value (json bytes) r = restore_error r
  restore_value (proto bytes) r = elim (setup.wire.decode_log bytes) [
    | none ↦ restore_error r
    | some entry ↦ elim (message_of setup entry) [
      | none ↦ restore_panic
      | some msg ↦
          if is_state msg.type
          then restore_state msg r
          else restore_apply msg (put_entry entry.index (proto bytes) r)
    ]
  ]

  abbrev pub then_restore : RestoreResult → (Restoring → RestoreResult) → RestoreResult
  then_restore (restore_done r) next = next r
  then_restore (restore_error r) next = restore_error r
  then_restore restore_panic next = restore_panic

  -- decodeProtobuf
  unfoldable pub restore_values : List (LogValue setup.wire) → Restoring → RestoreResult
  restore_values [] r = restore_done (flush r)
  restore_values (value ∷ rest) r = then_restore (restore_value value r) (restore_values rest)

  -- Restore of a protobuf snapshot, at a time: a new store, server and output.
  unfoldable pub restore : List (LogValue setup.wire) → ℕ → Fsm setup → RestoreResult
  restore file now fsm = restore_values file (record {
    fsm = record fsm { ircstore = setup.logs.empty; output = new_output_stream };
    server = new_irc_server setup.network now;
    batch = [];
  })
