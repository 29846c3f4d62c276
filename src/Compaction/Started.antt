-- ===== src/Compaction/Started.antt =====
-- statemachine.go: the two halves of Snapshot, when it succeeds.
use robustirc.Base.{
  Option-cases, [], arith, inl, inr, nat_eq, none, refl, some, suc, ℕ, ◌-◌, ◌∷◌, ◌≡◌, ◌≤◌, ◌⊎◌,
}
use robustirc.Base.Assoc.{Map, insert, lookup}
use robustirc.Compaction.{
  Compacted, Fsm, RobustSnapshot, Setup, compact, compact_error, compact_panic, compacted,
  compaction_end_of, keep_state, snapshot, snapshot_from, taken,
}
use robustirc.Irc.{Env}
use robustirc.Server.{IrcServer, new_irc_server}
use robustirc.Snapshot.Decode.{Unmarshalled, restored, unmarshal, unmarshal_error, unmarshal_panic}
use robustirc.Snapshot.Encode.{marshal}
use robustirc.Text.{text}

pub Unmarshalled-cases :
    (u : Unmarshalled)
    → (((i : IrcServer) × (u ≡ unmarshal_error i)) ⊎ (u ≡ unmarshal_panic))
      ⊎ ((index : ℕ) × (i : IrcServer) × (u ≡ restored index i))
Unmarshalled-cases (restored index i) = inr (index, i, refl)
Unmarshalled-cases (unmarshal_error i) = inl (inl (i, refl))
Unmarshalled-cases unmarshal_panic = inl (inr refl)

module _ ⦃env : Env⦄ (setup : Setup) where
  -- The temporary server that Snapshot starts from: an old state, or a new server if there is none.
  abbrev pub StartsFrom : ℕ → Fsm setup → ℕ → IrcServer → Type 0
  StartsFrom first fsm creation tmp =
      let new = new_irc_server (text "testnetwork") creation in
      ((lookup (first - 1) fsm.last_snapshot_state ≡ none) × (tmp ≡ new))
      ⊎ ((old : setup.enc.Bytes) × (index : ℕ) × (lookup (first - 1) fsm.last_snapshot_state
            ≡ some old)
          × (unmarshal ⦃enc = setup.enc⦄ old new ≡ restored index tmp))

  -- The rest of Snapshot, from a temporary server on and a state machine with fewer old states.
  pub record Started (start creation : ℕ) (fsm : Fsm setup) (snap : RobustSnapshot setup)
      (fsm' : Fsm setup) : Type 0 where
    pub tmp : IrcServer
    pub states : Map ℕ setup.enc.Bytes
    pub positive : 1 ≤ setup.logs.first_index fsm.ircstore
    pub from : StartsFrom (setup.logs.first_index fsm.ircstore) fsm creation tmp
    pub rest :
        snapshot_from setup start
          (setup.logs.first_index fsm.ircstore)
          (setup.logs.last_index fsm.ircstore)
          (record fsm { last_snapshot_state = states })
          tmp
        ≡ taken snap fsm'
    pub fewer : (key : ℕ) → lookup key fsm.last_snapshot_state ≡ none → lookup key states ≡ none

  pub lookup-keep_state :
      (kept key : ℕ) (m : Map ℕ setup.enc.Bytes)
      → lookup key m ≡ none
      → lookup key (keep_state setup kept m) ≡ none
  unfolding lookup keep_state
  lookup-keep_state kept key [] h = refl
  lookup-keep_state kept key ((j, state) ∷ m) h = ground (arith, lookup-keep_state kept key m)

  pub snapshot-Started :
      (start creation : ℕ) (fsm fsm' : Fsm setup) (snap : RobustSnapshot setup)
      → snapshot setup start creation fsm ≡ taken snap fsm'
      → Started start creation fsm snap fsm'
  unfolding snapshot
  snapshot-Started start creation fsm fsm' snap h =
      let first = setup.logs.first_index fsm.ircstore in
      let new = new_irc_server (text "testnetwork") creation in
      elim (Option-cases (lookup (first - 1) fsm.last_snapshot_state)) [
        | inl free ↦ record {
          tmp = new;
          states = fsm.last_snapshot_state;
          positive = ground (arith, free);
          from = inl (free, refl);
          rest = ground (arith, free);
          fewer = λ key e. e;
        }
        | inr (old, found) ↦ elim (Unmarshalled-cases (unmarshal ⦃enc = setup.enc⦄ old new)) [
          | inl bad ↦ absurd (ground (arith, found, bad))
          | inr (index, tmp, e) ↦ record {
            tmp = tmp;
            states = keep_state setup (first - 1) fsm.last_snapshot_state;
            positive = ground (arith, found, e);
            from = inr (old, index, found, e);
            rest = ground (arith, found, e);
            fewer = λ key none_before.
                lookup-keep_state (first - 1) key fsm.last_snapshot_state none_before;
          }
        ]
      ]

  pub Compacted-cases :
      (c : Compacted setup)
      → (((fsm : Fsm setup) × (c ≡ compact_error fsm)) ⊎ (c ≡ compact_panic))
        ⊎ ((first : ℕ) × (fsm : Fsm setup) × (tmp : IrcServer) × (c ≡ compacted first fsm tmp))
  Compacted-cases (compacted first fsm tmp) = inr (first, fsm, tmp, refl)
  Compacted-cases (compact_error fsm) = inl (inl (fsm, refl))
  Compacted-cases compact_panic = inl (inr refl)

  -- The loop of a Snapshot that succeeds.
  pub record Finished (start first last : ℕ) (fsm : Fsm setup) (tmp : IrcServer)
      (snap : RobustSnapshot setup) (fsm' : Fsm setup) : Type 0 where
    pub fsm₂ : Fsm setup
    pub tmp₂ : IrcServer
    pub loop :
        compact setup
          (compaction_end_of setup start fsm)
          (setup.logs.bulk first (suc last) fsm.ircstore)
          first
          fsm
          tmp
        ≡ compacted snap.first_index fsm₂ tmp₂
    pub state : snap.state ≡ marshal ⦃enc = setup.enc⦄ (snap.first_index - 1) tmp₂
    pub store : fsm'.ircstore ≡ fsm₂.ircstore
    pub snap_store : snap.store ≡ fsm₂.ircstore
    pub snap_last : snap.last_index ≡ last
    pub states :
        fsm'.last_snapshot_state ≡ insert (snap.first_index - 1) snap.state fsm₂.last_snapshot_state

  pub snapshot_from-Finished :
      (start first last : ℕ) (fsm fsm' : Fsm setup) (tmp : IrcServer) (snap : RobustSnapshot setup)
      → snapshot_from setup start first last fsm tmp ≡ taken snap fsm'
      → Finished start first last fsm tmp snap fsm'
  unfolding snapshot_from
  snapshot_from-Finished start first last fsm fsm' tmp snap h =
      let c =
        compact setup (compaction_end_of setup start fsm)
          (setup.logs.bulk first (suc last) fsm.ircstore) first fsm tmp in
      elim (Compacted-cases c) [
        | inl bad ↦ absurd (ground (arith, bad))
        | inr (first₂, fsm₂, tmp₂, e) ↦ record {
          fsm₂ = fsm₂;
          tmp₂ = tmp₂;
          loop = ground (arith, e);
          state = ground (arith, e);
          store = ground (arith, e);
          snap_store = ground (arith, e);
          snap_last = ground (arith, e);
          states = ground (arith, e);
        }
      ]
