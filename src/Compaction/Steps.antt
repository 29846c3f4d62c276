-- ===== src/Compaction/Steps.antt =====
-- statemachine.go: one step of Restore.
use robustirc.Base.{
  Bool-cases, Option, [], arith, inl, inr, length, ltb, none, option_case, refl, some, ℕ, ◌++◌, ◌∷◌,
  ◌≡◌, ◌⊎◌, nat_eq,
}
use robustirc.Compaction.{Setup, expiration_after}
use robustirc.Compaction.Replay.{Entries, server_after}
use robustirc.Compaction.Restore.{
  Restoring, flush, put_entry, restore_apply, restore_done, write_batch,
}
use robustirc.Fsm.{
  Applied, Node, applied, apply_delete_session, apply_irc_from_client, apply_robust_message,
  message_of_death_panic, process,
}
use robustirc.Irc.{Env}
use robustirc.OutputStream.{OutputStream}
use robustirc.Robust.{Message, MessageType}
use robustirc.Server.{IrcServer}
use robustirc.Sessions.{SessionError}
use robustirc.Wire.{LogValue}

-- The server that a message leaves, if it does not panic.
abbrev pub server_of : Applied → Option IrcServer
server_of (applied n err) = some n.server
server_of message_of_death_panic = none

module _ ⦃env : Env⦄ (setup : Setup) where
  -- The output stream has no influence on the server.
  pub apply-server :
      (msg : Message) (type : MessageType) (i : IrcServer) (o : Option OutputStream)
      → server_of
          (apply_robust_message setup.from_string msg type (record { server = i; output = o }))
        ≡ server_of
            (apply_robust_message setup.from_string msg type (record { server = i; output = none }))
  unfolding apply_robust_message apply_delete_session apply_irc_from_client process
  apply-server msg MessageType.message_of_death i o = refl
  apply-server msg MessageType.create_session i o = ground arith
  apply-server msg MessageType.delete_session i o = ground arith
  apply-server msg MessageType.irc_from_client i o = ground arith
  apply-server msg MessageType.config i o = ground arith
  apply-server msg _ i o = refl

  pub write_batch-append :
      (xs ys : Entries setup) (db : setup.logs.Db)
      → write_batch setup (xs ++ ys) db ≡ write_batch setup ys (write_batch setup xs db)
  unfolding write_batch
  write_batch-append [] ys db = refl
  write_batch-append ((k, v) ∷ xs) ys db = write_batch-append xs ys (setup.logs.store k v db)

  -- The store with what is still in the batch.
  abbrev pub written : Restoring setup → setup.logs.Db
  written r = write_batch setup r.batch r.fsm.ircstore

  pub written-put_entry :
      (k : ℕ) (v : LogValue setup.wire) (r : Restoring setup)
      → written (put_entry setup k v r) ≡ setup.logs.store k v (written r)
  unfolding put_entry flush
  written-put_entry k v r = elim (Bool-cases (ltb 100 (length (r.batch ++ (k, v) ∷ [])))) [
    | inl long ↦
        rw long (unfold write_batch in write_batch-append r.batch ((k, v) ∷ []) r.fsm.ircstore)
    | inr short ↦
        rw short (unfold write_batch in write_batch-append r.batch ((k, v) ∷ []) r.fsm.ircstore)
  ]

  -- What a step leaves, beside the server.
  pub record Steps (r : Restoring setup) (db : setup.logs.Db) (server : IrcServer)
      (r' : Restoring setup) : Type 0 where
    pub store : written r' ≡ db
    pub states : r'.fsm.last_snapshot_state ≡ r.fsm.last_snapshot_state
    pub result : r'.server ≡ server

  pub put_entry-Steps :
      (k : ℕ) (v : LogValue setup.wire) (r : Restoring setup)
      → Steps r (setup.logs.store k v (written r)) r.server (put_entry setup k v r)
  put_entry-Steps k v r = record {
    store = written-put_entry k v r;
    states = unfold put_entry flush in ground arith;
    result = unfold put_entry flush in ground arith;
  }

  pub Applied-cases :
      (a : Applied)
      → (a ≡ message_of_death_panic)
        ⊎ ((n : Node) × (err : Option SessionError) × (a ≡ applied n err))
  Applied-cases (applied n err) = inr (n, err, refl)
  Applied-cases message_of_death_panic = inl refl

  pub restore_apply-Steps :
      (msg : Message) (r : Restoring setup) (i : IrcServer)
      → server_after setup msg r.server ≡ some i
      → (r' : Restoring setup) × (restore_apply setup msg r ≡ restore_done r')
        × Steps r (written r) i r'
  unfolding restore_apply
  restore_apply-Steps msg r i after =
      let same = apply-server msg msg.type r.server (some r.fsm.output) in
      elim (Applied-cases (
        apply_robust_message setup.from_string msg msg.type
          (record { server = r.server; output = some r.fsm.output }))) [
            | inl dies ↦ absurd (ground (arith, same, dies))
            | inr (n, err, e) ↦ (
              record r {
                server = n.server;
                fsm = record r.fsm {
                  session_expiration = expiration_after setup msg msg.type r.fsm.session_expiration;
                  output = option_case n.output r.fsm.output (λ o. o);
                };
              },
              ground (arith, e),
              record { store = refl; states = refl; result = ground (arith, same, e, after) },
            )
          ]
