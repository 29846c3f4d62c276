-- ===== src/Compaction/Apply.antt =====
-- statemachine.go: Apply, and applyProto with its recovery from a panic.
use robustirc.Base.{
  Bool, Option, Option-cases, if◌then◌else◌, none, some, option_case, refl, ◌≡◌, arith, true, false,
  inl, inr, ap, ◌∙◌,
}
use robustirc.Compaction.{Fsm, Setup, expiration_after, is_command, message_of}
use robustirc.Compaction.Steps.{Applied-cases}
use robustirc.Fsm.{applied, apply_robust_message, message_of_death_panic}
use robustirc.Irc.{Env}
use robustirc.Robust.{Message, MessageType, id_eq, id_from_raft_index}
use robustirc.Base.Assoc.{lookup}
use robustirc.Server.{IrcServer, set_session}
use robustirc.Sessions.{SessionError, get_session, last_post_message, update_last_client_message_id}
use robustirc.Wire.RoundTrip.{new_message_from_bytes-message_bytes}
use robustirc.Wire.{
  EntryData, IsLosslessWire, RaftLog, Stored, json, log_from_bytes, message_bytes,
  new_message_from_bytes, proto, proto_message, with_index,
}

abbrev pub in_protobuf : {P J : Type 0} → Stored P J → Bool
in_protobuf (proto bytes) = true
in_protobuf (json bytes) = false

last_post_message-update :
    (msg : Message) (i : IrcServer)
    → last_post_message msg.session (update_last_client_message_id msg i).0
      ≡ option_case (lookup msg.session i.sessions) 0 (λ session. msg.client_message_id)
unfolding last_post_message update_last_client_message_id get_session set_session
last_post_message-update msg i = ground arith

module _ ⦃env : Env⦄ (setup : Setup) where
  -- The state machine with the variable ircServer, and fsm.store, the log of raft.
  pub record Running : Type 0 where
    pub fsm : Fsm setup
    pub server : IrcServer
    pub store : setup.logs.Db

  -- What Apply comes to: the error of applyRobustMessage, the end of the process with a message of
  -- death in the log, or a panic where NewMessageFromBytes does not read the entry.
  pub data ApplyResult : Type 0 where
    apply_done : Running → Option SessionError → ApplyResult
    apply_dies : Running → ApplyResult
    apply_panic : Running → ApplyResult

  -- ircstore.StoreLogProto or ircstore.StoreLog
  unfoldable pub keep_log : Bool → RaftLog (EntryData setup.wire) → Running → Running
  keep_log use_protobuf l r = record r {
    fsm = record r.fsm {
      ircstore =
          setup.logs.store l.index
            (if use_protobuf
              then proto (setup.wire.encode_log l)
              else json (setup.wire.encode_json_log l))
            r.fsm.ircstore;
    };
  }

  -- The entry with a message of death, in the encoding that it had.
  unfoldable pub death_log :
      RaftLog (EntryData setup.wire) → Message → RaftLog (EntryData setup.wire)
  death_log l msg = record l {
    payload =
        message_bytes setup.wire (in_protobuf l.payload)
          (record msg { type = MessageType.message_of_death });
  }

  -- applyProto
  unfoldable pub apply_proto : RaftLog (EntryData setup.wire) → Message → Running → ApplyResult
  apply_proto l msg r =
      elim (apply_robust_message setup.from_string msg msg.type
        (record { server = r.server; output = some r.fsm.output })) [
          | message_of_death_panic ↦ apply_dies (record r {
            store =
                setup.logs.store l.index (proto (setup.wire.encode_log (death_log l msg))) r.store;
          })
          | applied n err ↦
              apply_done
                (record r {
                  server = n.server;
                  fsm = record r.fsm {
                    session_expiration =
                        expiration_after setup msg msg.type r.fsm.session_expiration;
                    output = option_case n.output r.fsm.output (λ o. o);
                  };
                })
                err
        ]

  -- Apply
  unfoldable pub apply : Bool → RaftLog (EntryData setup.wire) → Running → ApplyResult
  apply use_protobuf l r =
      if is_command l.type
      then elim (message_of setup l) [
        | none ↦ apply_panic (keep_log use_protobuf l r)
        | some msg ↦ apply_proto l msg (keep_log use_protobuf l r)
      ]
      else apply_done r none

  message_of-index :
      (l : RaftLog (EntryData setup.wire)) (msg : Message) (t : MessageType)
      → message_of setup l ≡ some msg
      → with_index (id_from_raft_index setup.message_offset l.index) (record msg { type = t })
        ≡ record msg { type = t }
  unfolding message_of new_message_from_bytes with_index
  message_of-index l msg t h = ground arith

  message_of-death_log :
      (l : RaftLog (EntryData setup.wire)) (msg : Message)
      → IsLosslessWire setup.wire
      → message_of setup l ≡ some msg
      → message_of setup (death_log l msg)
        ≡ some (record msg { type = MessageType.message_of_death })
  unfolding death_log message_of
  message_of-death_log l msg lossless h =
      (new_message_from_bytes-message_bytes setup.wire (in_protobuf l.payload)
        (record msg { type = MessageType.message_of_death })
        (id_from_raft_index setup.message_offset l.index) (proto_message msg) lossless).0
      ∙ ap some (message_of-index l msg MessageType.message_of_death h)

  apply_proto-dies :
      (l : RaftLog (EntryData setup.wire)) (msg : Message) (r r' : Running)
      → apply_proto l msg r ≡ apply_dies r'
      → r' ≡ record r {
        store = setup.logs.store l.index (proto (setup.wire.encode_log (death_log l msg))) r.store;
      }
  unfolding apply_proto
  apply_proto-dies l msg r r' h =
      elim (Applied-cases setup (
        apply_robust_message setup.from_string msg msg.type
          (record { server = r.server; output = some r.fsm.output }))) [
            | inl dies ↦ ground (arith, dies)
            | inr (n, err, e) ↦ absurd (ground (arith, e))
          ]

  apply_again :
      (use_protobuf : Bool) (l : RaftLog (EntryData setup.wire)) (msg : Message) (r : Running)
      → is_command l.type ≡ true
      → message_of setup l ≡ some (record msg { type = MessageType.message_of_death })
      → apply use_protobuf l r
        ≡ apply_done
            (record (keep_log use_protobuf l r) {
              server =
                  (update_last_client_message_id
                    (record msg { type = MessageType.message_of_death })
                    r.server).0;
            })
            none
  unfolding apply apply_proto apply_robust_message keep_log expiration_after
  apply_again use_protobuf l msg r command found = rw (command, found) refl

  apply-dies :
      (use_protobuf : Bool) (l : RaftLog (EntryData setup.wire)) (r r' : Running)
      → apply use_protobuf l r ≡ apply_dies r'
      → (is_command l.type ≡ true)
        × (msg : Message) × (message_of setup l ≡ some msg)
        × (apply_proto l msg (keep_log use_protobuf l r) ≡ apply_dies r')
  unfolding apply
  apply-dies use_protobuf l r r' h = elim (Option-cases (message_of setup l)) [
    | inl fails ↦ absurd (ground (arith, fails))
    | inr (msg, found) ↦ (ground (arith, found), msg, found, ground (arith, found))
  ]

  -- An entry in the place of another one, with the same fields but for a message of another type.
  pub record IsRetyped (t : MessageType) (msg : Message) (l l' : RaftLog (EntryData setup.wire))
      : Type 0 where
    pub index : l'.index ≡ l.index
    pub term : l'.term ≡ l.term
    pub type : l'.type ≡ l.type
    pub extensions : l'.extensions ≡ l.extensions
    pub before : message_of setup l ≡ some msg
    pub after : message_of setup l' ≡ some (record msg { type = t })

  death_log-IsRetyped :
      (l : RaftLog (EntryData setup.wire)) (msg : Message)
      → IsLosslessWire setup.wire
      → message_of setup l ≡ some msg
      → IsRetyped MessageType.message_of_death msg l (death_log l msg)
  death_log-IsRetyped l msg lossless found = record {
    index = unfold death_log in refl;
    term = unfold death_log in refl;
    type = unfold death_log in refl;
    extensions = unfold death_log in refl;
    before = found;
    after = message_of-death_log l msg lossless found;
  }

  -- For encoders that lose nothing: if Apply of an entry ends in a panic of the IRC server, then one
  -- entry has been written to the log of raft, under the same index. It is read back, and has the
  -- index, term, type and extensions of the first one, and its message as a message of death. Apply
  -- of it, on any node and in any state, does not panic: it stores the entry in irclog, and changes
  -- the server only as UpdateLastClientMessageID does, which sets the times of the last activity too;
  -- after it the last client message id of the message's session, if there is one, is that of the
  -- message.
  pub apply-crosses_out :
      (use_protobuf use_protobuf' : Bool) (l : RaftLog (EntryData setup.wire)) (r r' next : Running)
      → IsLosslessWire setup.wire
      → apply use_protobuf l r ≡ apply_dies r'
      → (msg : Message) × (l' : RaftLog (EntryData setup.wire)) × IsRetyped
          MessageType.message_of_death msg l l'
        × (r'.store ≡ setup.logs.store l.index (proto (setup.wire.encode_log l')) r.store)
        × (log_from_bytes setup.wire (proto (setup.wire.encode_log l')) ≡ some l')
        × (server' : IrcServer) × (server'
            ≡ (update_last_client_message_id
                (record msg { type = MessageType.message_of_death })
                next.server).0)
        × (last_post_message msg.session server'
            ≡ option_case
                (lookup msg.session next.server.sessions)
                0
                (λ session. msg.client_message_id))
        × (apply use_protobuf' l' next
            ≡ apply_done (record (keep_log use_protobuf' l' next) { server = server' }) none)
  apply-crosses_out use_protobuf use_protobuf' l r r' next lossless h =
      let (command, msg, found, dies) = apply-dies use_protobuf l r r' h in
      (
        msg,
        death_log l msg,
        death_log-IsRetyped l msg lossless found,
        ap (λ (r : Running). r.store) (apply_proto-dies l msg (keep_log use_protobuf l r) r' dies)
            ∙ unfold keep_log in refl,
        unfold log_from_bytes in lossless.log (death_log l msg),
        (update_last_client_message_id (record msg { type = MessageType.message_of_death })
            next.server).0,
        refl,
        last_post_message-update (record msg { type = MessageType.message_of_death }) next.server,
        apply_again use_protobuf' (death_log l msg) msg next (unfold death_log in command)
            (message_of-death_log l msg lossless found),
      )
