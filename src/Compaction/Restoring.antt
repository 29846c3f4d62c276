-- ===== src/Compaction/Restoring.antt =====
-- compaction.go and statemachine.go: Restore of what Persist wrote.
use robustirc.Compaction.Steps.{written, put_entry-Steps, restore_apply-Steps}
use robustirc.Base.{
  List, Option-cases, [], ap, arith, false, inl, inr, refl, some, suc, sym, true, ℕ, ◌∙◌, ◌∷◌, ◌≡◌,
  nat_eq,
}
use robustirc.Base.Assoc.{insert, values}
use robustirc.Compaction.{Fsm, RobustSnapshot, Setup, is_command, message_of, read_entry, readable}
use robustirc.Compaction.Replay.{Entries, replay, server_after}
use robustirc.Compaction.Restore.{
  Restoring, flush, is_state, persist, put_entry, restore, restore_apply, restore_done,
  restore_state, restore_value, restore_values, state_log, state_message, write_batch,
}
use robustirc.Irc.{Env}
use robustirc.OutputStream.{new_output_stream}
use robustirc.Robust.{Message, id_from_raft_index}
use robustirc.Server.{IrcServer, new_irc_server}
use robustirc.Snapshot.Decode.{restored, unmarshal}
use robustirc.Wire.{
  EntryData, IsLosslessWire, LogValue, RaftLog, log_from_bytes, proto, proto_message, with_index,
}
use robustirc.Wire.RoundTrip.{new_message_from_bytes-message_bytes}

module _ ⦃env : Env⦄ (setup : Setup) where
  -- An entry as Apply stores it with protobuf: its own index is its key, and it holds a command whose
  -- message does not carry a state.
  pub record IsStored (k : ℕ) (value : LogValue setup.wire) : Type 0 where
    pub bytes : setup.wire.LogBytes
    pub in_proto : value ≡ proto bytes
    pub entry : RaftLog (EntryData setup.wire)
    pub decodes : setup.wire.decode_log bytes ≡ some entry
    pub own_index : entry.index ≡ k
    pub is_a_command : is_command entry.type ≡ true
    pub msg : Message
    pub parses : message_of setup entry ≡ some msg
    pub no_state : is_state msg.type ≡ false

  abbrev pub AreStored : Entries setup → Type 0
  AreStored [] = Unit
  AreStored ((k, value) ∷ m) = IsStored k value × AreStored m

  read_entry-stored :
      (k : ℕ) (value : LogValue setup.wire) (h : IsStored k value)
      → read_entry setup value ≡ readable h.msg
  unfolding read_entry log_from_bytes
  read_entry-stored k value h =
      ap (read_entry setup) h.in_proto ∙ ground (arith, h.decodes, h.is_a_command, h.parses)

  restore_value-stored :
      (k : ℕ) (value : LogValue setup.wire) (r : Restoring setup) (h : IsStored k value)
      → restore_value setup value r ≡ restore_apply setup h.msg (put_entry setup k value r)
  unfolding restore_value
  restore_value-stored k value r h =
      ap (λ (v : LogValue setup.wire). restore_value setup v r) h.in_proto
      ∙ ground (arith, h.decodes, h.parses, h.no_state)
      ∙ ap (λ (i : ℕ). restore_apply setup h.msg (put_entry setup i (proto h.bytes) r)) h.own_index
      ∙ ap (λ (v : LogValue setup.wire). restore_apply setup h.msg (put_entry setup k v r))
          (sym h.in_proto)

  replay-stored :
      (k : ℕ) (value : LogValue setup.wire) (m : Entries setup) (msg : Message)
      (i server : IrcServer)
      → read_entry setup value ≡ readable msg
      → replay setup ((k, value) ∷ m) i ≡ some server
      → (i' : IrcServer) × (server_after setup msg i ≡ some i') × (replay setup m i' ≡ some server)
  replay-stored k value m msg i server e h = elim (Option-cases (server_after setup msg i)) [
    | inl dies ↦ absurd (unfold replay in ground (arith, e, dies))
    | inr (i', after) ↦ (i', after, unfold replay in ground (arith, e, after))
  ]

  restore_values_step :
      (value : LogValue setup.wire) (rest : List (LogValue setup.wire)) (r r' : Restoring setup)
      → restore_value setup value r ≡ restore_done r'
      → restore_values setup (value ∷ rest) r ≡ restore_values setup rest r'
  unfolding restore_values
  restore_values_step value rest r r' h = rw h refl

  -- The loop of decodeProtobuf over stored entries.
  restore_values-stored :
      (kept : Entries setup) (r : Restoring setup) (server : IrcServer)
      → AreStored kept
      → replay setup kept r.server ≡ some server
      → (r' : Restoring setup) × (restore_values setup (values kept) r ≡ restore_done r')
        × (r'.fsm.ircstore ≡ write_batch setup kept (written setup r))
        × (r'.fsm.last_snapshot_state ≡ r.fsm.last_snapshot_state)
        × (r'.server ≡ server)
  restore_values-stored [] r server stored h = (
    flush setup r,
    unfold restore_values in refl,
    unfold flush write_batch in refl,
    unfold flush in refl,
    unfold flush replay in ground arith,
  )
  restore_values-stored ((k, value) ∷ kept) r server (stored, rest) h =
      let r₁ = put_entry setup k value r in
      let put = put_entry-Steps setup k value r in
      let (i', after, replayed) =
        replay-stored k value kept stored.msg r.server server (read_entry-stored k value stored)
          h in
      let (r₂, apply, step) =
        restore_apply-Steps setup stored.msg r₁ i'
          (ap (server_after setup stored.msg) put.result ∙ after) in
      let (r', ends, store, states, result) =
        restore_values-stored kept r₂ server rest (ap (replay setup kept) step.result ∙ replayed) in
      (
        r',
        restore_values_step value (values kept) r r₂ (restore_value-stored k value r stored ∙ apply)
            ∙ ends,
        store ∙ unfold write_batch in ap (write_batch setup kept) (step.store ∙ put.store),
        states ∙ step.states ∙ put.states,
        result,
      )

  with_index-same :
      (index : ℕ) (m : Message)
      → ((with_index index m).type ≡ m.type) × ((with_index index m).payload ≡ m.payload)
  unfolding with_index
  with_index-same index m = ground arith

  -- The message that Persist writes in front, as decodeProtobuf reads it.
  abbrev read_state : setup.enc.Bytes → Message
  read_state state =
      with_index (id_from_raft_index setup.message_offset 0) (state_message setup state)

  message_of-state_log :
      (state : setup.enc.Bytes)
      → IsLosslessWire setup.wire
      → message_of setup (state_log setup state) ≡ some (read_state state)
  unfolding message_of state_log
  message_of-state_log state lossless =
      (new_message_from_bytes-message_bytes setup.wire true (state_message setup state)
        (id_from_raft_index setup.message_offset 0) (proto_message (state_message setup state))
        lossless).0

  restore_value-state :
      (state : setup.enc.Bytes) (r : Restoring setup)
      → IsLosslessWire setup.wire
      → restore_value setup (proto (setup.wire.encode_log (state_log setup state))) r
        ≡ restore_state setup (read_state state) r
  unfolding restore_value
  restore_value-state state r lossless = ground (
    arith,
    lossless.log (state_log setup state),
    message_of-state_log state lossless,
    with_index-same (id_from_raft_index setup.message_offset 0) (state_message setup state),
  )

  restore_state-reads :
      (state : setup.enc.Bytes) (index : ℕ) (r : Restoring setup) (base : IrcServer)
      → setup.unbase64 (setup.base64 state) ≡ some state
      → unmarshal ⦃enc = setup.enc⦄ state r.server ≡ restored index base
      → restore_state setup (read_state state) r
        ≡ restore_done (record r {
          server = base;
          fsm = record r.fsm { last_snapshot_state = insert index state r.fsm.last_snapshot_state };
        })
  unfolding restore_state
  restore_state-reads state index r base decodes reads = ground (
    arith,
    decodes,
    reads,
    with_index-same (id_from_raft_index setup.message_offset 0) (state_message setup state),
  )

  -- Given encoders that lose nothing: if a snapshot's state is read back onto a new server, its
  -- entries are commands stored with protobuf, and replaying their messages on that server does not
  -- panic, then Restore of what Persist wrote succeeds. The server is the result of that replay, the
  -- state is remembered under the index that it carries, and the store holds what writing the
  -- entries one by one to an empty store gives.
  pub restore-persist :
      (snap : RobustSnapshot setup) (kept : Entries setup) (now index : ℕ) (fsm : Fsm setup)
      (base server : IrcServer)
      → IsLosslessWire setup.wire
      → setup.unbase64 (setup.base64 snap.state) ≡ some snap.state
      → setup.logs.bulk snap.first_index (suc snap.last_index) snap.store ≡ kept
      → AreStored kept
      → unmarshal ⦃enc = setup.enc⦄ snap.state (new_irc_server setup.network now)
        ≡ restored index base
      → replay setup kept base ≡ some server
      → (r : Restoring setup) × (restore setup (persist setup snap) now fsm ≡ restore_done r)
        × (r.server ≡ server)
        × (r.fsm.last_snapshot_state ≡ insert index snap.state fsm.last_snapshot_state)
        × (r.fsm.ircstore ≡ write_batch setup kept setup.logs.empty)
  unfolding restore persist
  restore-persist snap kept now index fsm base server lossless decodes entries stored reads
        replayed =
      let r₀ : Restoring setup = record {
        fsm = record fsm { ircstore = setup.logs.empty; output = new_output_stream };
        server = new_irc_server setup.network now;
        batch = [];
      } in
      let r₁ : Restoring setup = record r₀ {
        server = base;
        fsm = record r₀.fsm {
          last_snapshot_state = insert index snap.state fsm.last_snapshot_state;
        };
      } in
      let (r, ends, store, states, result) = restore_values-stored kept r₁ server stored replayed in
      (
        r,
        restore_values_step (proto (setup.wire.encode_log (state_log setup snap.state)))
              (values (setup.logs.bulk snap.first_index (suc snap.last_index) snap.store)) r₀ r₁
              (restore_value-state snap.state r₀ lossless
                ∙ restore_state-reads snap.state index r₀ base decodes reads)
            ∙ ap (λ (es : Entries setup). restore_values setup (values es) r₁) entries
            ∙ ends,
        result,
        states,
        store ∙ unfold write_batch in refl,
      )
