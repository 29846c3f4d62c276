-- ===== src/Compaction/Snapshots.antt =====
-- statemachine.go: what Snapshot takes, and what the next Snapshot finds of it.
use robustirc.Compaction.Started.{StartsFrom, snapshot-Started, snapshot_from-Finished}
use robustirc.Base.{
  All, [], ap, arith, false, nat_eq, none, refl, some, sym, ℕ, ◌++◌, ◌-◌, ◌<◌, ◌∙◌, ◌∷◌, ◌≡◌, ◌≢◌,
  ◌≤◌,
}
use robustirc.Base.Assoc.{lookup, lookup-insert}
use robustirc.Compaction.{
  Fsm, RobustSnapshot, Setup, compact, compacted, compaction_end_of, snapshot, snapshot_from, taken,
}
use robustirc.Compaction.Loop.{compact-Compaction}
use robustirc.Compaction.Replay.{Entries, IsOld, StopsAt, replay, unreadable}
use robustirc.Irc.{Env}
use robustirc.LogStore.{IsLogStore}
use robustirc.Server.{IrcServer, new_irc_server}
use robustirc.Snapshot.Encode.{marshal}
use robustirc.Text.{text}
use mathlib.Core.Path.{subst}

module _ ⦃env : Env⦄ (setup : Setup) where
  -- What a snapshot holds, and what is left of the log and of the old states.
  pub record IsSnapshotOf (logs : IsLogStore setup.logs) (start creation : ℕ) (fsm : Fsm setup)
      (snap : RobustSnapshot setup) (fsm' : Fsm setup) : Type 0 where
    pub positive : 1 ≤ setup.logs.first_index fsm.ircstore
    pub tmp : IrcServer
    pub from : StartsFrom setup (setup.logs.first_index fsm.ircstore) fsm creation tmp
    pub done : Entries setup
    pub kept : Entries setup
    pub server : IrcServer
    pub split : logs.entries fsm.ircstore ≡ done ++ kept
    pub replayed : replay setup done tmp ≡ some server
    pub old : All (IsOld setup (compaction_end_of setup start fsm)) done
    pub stops :
        StopsAt setup
          (compaction_end_of setup start fsm)
          kept
          (setup.logs.first_index fsm.ircstore)
          snap.first_index
    pub state : snap.state ≡ marshal ⦃enc = setup.enc⦄ (snap.first_index - 1) server
    pub remembered : lookup (snap.first_index - 1) fsm'.last_snapshot_state ≡ some snap.state
    pub left :
        fsm.skip_deletion_for_canary ≡ false
        → logs.entries fsm'.ircstore ≡ unreadable setup done ++ kept
    pub store : snap.store ≡ fsm'.ircstore
    pub forgotten :
        (key : ℕ)
        → key ≢ snap.first_index - 1
        → lookup key fsm.last_snapshot_state ≡ none
        → lookup key fsm'.last_snapshot_state ≡ none

  -- Whenever Snapshot succeeds, the entries of the log are split in two: those in front have
  -- messages that are at most as new as the end of the compaction, the session expiration and ten
  -- seconds before the start, and the first of the others, if any, is newer and gives the first
  -- index of the snapshot. The state of the snapshot is the encoding of the server that results
  -- from replaying the messages in front on the state kept for the previous index, or on a new
  -- server if none is kept. It is remembered under the index before the first one. Unless deletion
  -- is off, the log then holds the entries that were not compacted, and those that do not decode.
  pub snapshot-IsSnapshotOf :
      (logs : IsLogStore setup.logs) (start creation : ℕ) (fsm fsm' : Fsm setup)
      (snap : RobustSnapshot setup)
      → logs.IsDb fsm.ircstore
      → snapshot setup start creation fsm ≡ taken snap fsm'
      → IsSnapshotOf logs start creation fsm snap fsm'
  unfolding compaction_end_of
  snapshot-IsSnapshotOf logs start creation fsm fsm' snap valid h =
      let s = snapshot-Started setup start creation fsm fsm' snap h in
      let first = setup.logs.first_index fsm.ircstore in
      let fsm₁ : Fsm setup = record fsm { last_snapshot_state = s.states } in
      let f =
        snapshot_from-Finished setup start first (setup.logs.last_index fsm.ircstore) fsm₁ fsm'
          s.tmp snap s.rest in
      let end = compaction_end_of setup start fsm₁ in
      let c =
        compact-Compaction setup logs end first (logs.entries fsm.ircstore) fsm₁ f.fsm₂ s.tmp f.tmp₂
          snap.first_index
          (subst
            (λ es. compact setup end es first fsm₁ s.tmp ≡ compacted snap.first_index f.fsm₂ f.tmp₂)
            (logs.bulk_all fsm.ircstore valid) f.loop) in
      record {
        positive = s.positive;
        tmp = s.tmp;
        from = s.from;
        done = c.done;
        kept = c.kept;
        server = f.tmp₂;
        split = c.split;
        replayed = c.state;
        old = c.old;
        stops = c.stops;
        state = f.state;
        remembered =
            ap (lookup (snap.first_index - 1)) f.states
            ∙ lookup-insert (snap.first_index - 1) (snap.first_index - 1) snap.state
                f.fsm₂.last_snapshot_state
            ∙ ground arith;
        left = λ on. ap logs.entries f.store ∙ c.stored [] on valid refl;
        store = f.snap_store ∙ sym f.store;
        forgotten = λ key other none_before.
            ap (lookup key) f.states
            ∙ lookup-insert (snap.first_index - 1) key snap.state f.fsm₂.last_snapshot_state
            ∙ ground (arith, c.states, s.fewer key none_before);
      }

  -- No message of the entries is too new.
  abbrev pub AllOld : ℕ → Entries setup → Type 0
  AllOld end = All (IsOld setup end)

  old-stops :
      (end : ℕ) (done kept : Entries setup) (first first' : ℕ)
      → AllOld end (done ++ kept)
      → StopsAt setup end kept first first'
      → first' ≡ first
  old-stops end [] [] first first' old stops = stops
  old-stops end [] ((k, value) ∷ m) first first' (old, olds) (e, msg, read, newer) =
      absurd (ground (arith, old msg read))
  old-stops end (entry ∷ done) kept first first' (old, olds) stops =
      old-stops end done kept first first' olds stops

  snapshot-new :
      (start creation m : ℕ) (fsm : Fsm setup)
      → setup.logs.first_index fsm.ircstore ≡ m
      → 1 ≤ m
      → lookup (m - 1) fsm.last_snapshot_state ≡ none
      → snapshot setup start creation fsm
        ≡ snapshot_from setup start m
            (setup.logs.last_index fsm.ircstore)
            fsm
            (new_irc_server (text "testnetwork") creation)
  unfolding snapshot
  snapshot-new start creation m fsm first positive free = ground arith

  -- If every message of the log is old enough to be compacted, as after a quiet time, Snapshot
  -- remembers its state under the index before the first entry that it has just compacted, and not
  -- under that of the last one. The next Snapshot, over a log that begins with any later index m for
  -- which no state was kept before, finds none, and starts from a new server: everything that the
  -- compacted messages did is lost in it.
  pub snapshot-forgets :
      (logs : IsLogStore setup.logs) (start creation : ℕ) (fsm fsm' later : Fsm setup)
      (snap : RobustSnapshot setup) (m start' creation' : ℕ)
      → logs.IsDb fsm.ircstore
      → snapshot setup start creation fsm ≡ taken snap fsm'
      → AllOld (compaction_end_of setup start fsm) (logs.entries fsm.ircstore)
      → setup.logs.first_index fsm.ircstore < m
      → lookup (m - 1) fsm.last_snapshot_state ≡ none
      → later.last_snapshot_state ≡ fsm'.last_snapshot_state
      → setup.logs.first_index later.ircstore ≡ m
      → (snap.first_index ≡ setup.logs.first_index fsm.ircstore)
        × (snapshot setup start' creation' later
            ≡ snapshot_from setup start' m
                (setup.logs.last_index later.ircstore)
                later
                (new_irc_server (text "testnetwork") creation'))
  snapshot-forgets logs start creation fsm fsm' later snap m start' creation' valid h old above free
        states first =
      let s = snapshot-IsSnapshotOf logs start creation fsm fsm' snap valid h in
      let same : snap.first_index ≡ setup.logs.first_index fsm.ircstore =
        old-stops (compaction_end_of setup start fsm) s.done s.kept
          (setup.logs.first_index fsm.ircstore) snap.first_index
          (subst (AllOld (compaction_end_of setup start fsm)) s.split old) s.stops in
      let positive = s.positive in
      let other : m - 1 ≢ snap.first_index - 1 = λ e. omega arith in
      (
        same,
        snapshot-new start' creation' m later first (omega arith)
            (ap (lookup (m - 1)) states ∙ s.forgotten (m - 1) other free),
      )
