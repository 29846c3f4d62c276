-- ===== src/Compaction/Loop.antt =====
-- statemachine.go: the loop of Snapshot.
use robustirc.Compaction.Replay.{
  Entries, server_after, replay, unreadable, unreadable-skipped, unreadable-readable,
  replay-readable, ReadEntry-cases, StopsAt, Compaction,
}
use robustirc.Base.{
  Bool-cases, Option-cases, [], ap, arith, elem, false, inl, inr, ltb, nat_eq, refl, some, sym,
  true, ℕ, ◌++◌, ◌∙◌, ◌∷◌, ◌≡◌, ◌⊎◌,
}
use robustirc.Base.Assoc.{delete, keys}
use robustirc.Base.Distinct.{Distinct, delete-append, elem-keys}
use robustirc.Compaction.{
  Fsm, Setup, compact, compact_message, compacted, delete_compacted, not_command, read_entry,
  readable, skipped, unparsable,
}
use robustirc.Irc.{Env}
use robustirc.LogStore.{IsLogStore}
use robustirc.Robust.{Message, timestamp}
use robustirc.Server.{IrcServer}
use robustirc.Wire.{LogValue}
use mathlib.Core.List.{append_assoc}
use mathlib.Core.Path.{subst}

module _ ⦃env : Env⦄ (setup : Setup) where
  module _ (logs : IsLogStore setup.logs) (end first : ℕ) where
    abbrev Ends : Entries setup → Fsm setup → IrcServer → ℕ → Fsm setup → IrcServer → Type 0
    Ends entries fsm tmp first' fsm' tmp' =
        compact setup end entries first fsm tmp ≡ compacted first' fsm' tmp'

    -- One message that is compacted.
    compacted-server :
        (i : ℕ) (msg : Message) (fsm fsm' : Fsm setup) (tmp tmp' : IrcServer)
        → compact_message setup i msg fsm tmp ≡ some (fsm', tmp')
        → (server_after setup msg tmp ≡ some tmp')
          × (fsm'.skip_deletion_for_canary ≡ fsm.skip_deletion_for_canary)
          × (fsm'.last_snapshot_state ≡ fsm.last_snapshot_state)
    unfolding compact_message delete_compacted
    compacted-server i msg fsm fsm' tmp tmp' h = ground arith

    compacted-store :
        (i : ℕ) (msg : Message) (fsm fsm' : Fsm setup) (tmp tmp' : IrcServer)
        → compact_message setup i msg fsm tmp ≡ some (fsm', tmp')
        → fsm.skip_deletion_for_canary ≡ false
        → fsm'.ircstore ≡ setup.logs.delete_range i i fsm.ircstore
    unfolding compact_message delete_compacted
    compacted-store i msg fsm fsm' tmp tmp' h on = ground arith

    compact-skipped :
        (i : ℕ) (value : LogValue setup.wire) (rest : Entries setup) (fsm fsm' : Fsm setup)
        (tmp tmp' : IrcServer) (first' : ℕ)
        → read_entry setup value ≡ skipped
        → Ends ((i, value) ∷ rest) fsm tmp first' fsm' tmp'
        → Ends rest fsm tmp first' fsm' tmp'
    unfolding compact
    compact-skipped i value rest fsm fsm' tmp tmp' first' e h = ground arith

    compact-newer :
        (i : ℕ) (value : LogValue setup.wire) (rest : Entries setup) (fsm fsm' : Fsm setup)
        (tmp tmp' : IrcServer) (first' : ℕ) (msg : Message)
        → read_entry setup value ≡ readable msg
        → ltb end (timestamp msg) ≡ true
        → Ends ((i, value) ∷ rest) fsm tmp first' fsm' tmp'
        → (first' ≡ i) × (fsm' ≡ fsm) × (tmp' ≡ tmp)
    unfolding compact
    compact-newer i value rest fsm fsm' tmp tmp' first' msg e new h = ground arith

    compact-older :
        (i : ℕ) (value : LogValue setup.wire) (rest : Entries setup) (fsm fsm' : Fsm setup)
        (tmp tmp' : IrcServer) (first' : ℕ) (msg : Message)
        → read_entry setup value ≡ readable msg
        → ltb end (timestamp msg) ≡ false
        → Ends ((i, value) ∷ rest) fsm tmp first' fsm' tmp'
        → (p : Fsm setup × IrcServer) × (compact_message setup i msg fsm tmp ≡ some p)
          × Ends rest p.0 p.1 first' fsm' tmp'
    unfolding compact
    compact-older i value rest fsm fsm' tmp tmp' first' msg e old h =
        elim (Option-cases (compact_message setup i msg fsm tmp)) [
          | inl fails ↦ absurd (ground arith)
          | inr (p, found) ↦ (p, found, ground arith)
        ]

    -- The two ways in which the loop goes on.
    module _ (i : ℕ) (value : LogValue setup.wire) (rest : Entries setup) (fsm fsm' : Fsm setup)
        (tmp tmp' : IrcServer) (first' : ℕ) where
      go_on-skipped :
          read_entry setup value ≡ skipped
          → Compaction setup logs end rest first fsm tmp first' fsm' tmp'
          → Compaction setup logs end ((i, value) ∷ rest) first fsm tmp first' fsm' tmp'
      unfolding replay unreadable
      go_on-skipped e c = record {
        done = (i, value) ∷ c.done;
        kept = c.kept;
        split = ap (λ es. (i, value) ∷ es) c.split;
        state = ground (arith, c.state);
        old = ((λ msg read. absurd (ground arith)), c.old);
        stops = c.stops;
        stored = λ left on valid st.
            c.stored (left ++ (i, value) ∷ []) on valid
              (st ∙ sym (append_assoc left ((i, value) ∷ []) rest))
            ∙ append_assoc left ((i, value) ∷ []) (unreadable setup c.done ++ c.kept)
            ∙ rw (unreadable-skipped setup i value c.done e) refl;
        states = c.states;
      }

      go_on-older :
          (msg : Message) (p : Fsm setup × IrcServer)
          → read_entry setup value ≡ readable msg
          → ltb end (timestamp msg) ≡ false
          → compact_message setup i msg fsm tmp ≡ some p
          → Compaction setup logs end rest first p.0 p.1 first' fsm' tmp'
          → Compaction setup logs end ((i, value) ∷ rest) first fsm tmp first' fsm' tmp'
      go_on-older msg p e before message c =
          let facts = compacted-server i msg fsm p.0 tmp p.1 message in
          record {
            done = (i, value) ∷ c.done;
            kept = c.kept;
            split = ap (λ es. (i, value) ∷ es) c.split;
            state = replay-readable setup i value c.done msg tmp p.1 e facts.0 ∙ c.state;
            old = ((λ other read. ground arith), c.old);
            stops = c.stops;
            stored = λ left on valid st.
                let store = compacted-store i msg fsm p.0 tmp p.1 message on in
                c.stored left (facts.1 ∙ on)
                  (subst logs.IsDb (sym store) (logs.delete-IsDb i fsm.ircstore valid))
                  (ap logs.entries store
                    ∙ logs.delete_one i fsm.ircstore valid (
                        ap (λ (es : Entries setup). elem i (keys es)) st
                        ∙ elem-keys left i value rest)
                    ∙ ap (delete i) st
                    ∙ delete-append left i value rest
                        (subst (λ es. Distinct (keys es)) st (logs.distinct fsm.ircstore valid)))
                ∙ rw (unreadable-readable setup i value c.done msg e) refl;
            states = c.states ∙ facts.2;
          }

    compact-refused :
        (i : ℕ) (value : LogValue setup.wire) (rest : Entries setup) (fsm fsm' : Fsm setup)
        (tmp tmp' : IrcServer) (first' : ℕ)
        → ((read_entry setup value ≡ not_command) ⊎ (read_entry setup value ≡ unparsable))
        → Ends ((i, value) ∷ rest) fsm tmp first' fsm' tmp'
        → ⊥
    unfolding compact
    compact-refused i value rest fsm fsm' tmp tmp' first' bad h = ground arith

    compact-nil :
        (fsm fsm' : Fsm setup) (tmp tmp' : IrcServer) (first' : ℕ)
        → Ends [] fsm tmp first' fsm' tmp'
        → (first' ≡ first) × (fsm' ≡ fsm) × (tmp' ≡ tmp)
    unfolding compact
    compact-nil fsm fsm' tmp tmp' first' h = ground arith

    stop_here :
        (entries : Entries setup) (fsm fsm' : Fsm setup) (tmp tmp' : IrcServer) (first' : ℕ)
        → StopsAt setup end entries first first'
        → fsm' ≡ fsm
        → tmp' ≡ tmp
        → Compaction setup logs end entries first fsm tmp first' fsm' tmp'
    unfolding replay unreadable
    stop_here entries fsm fsm' tmp tmp' first' stops e₁ e₂ = record {
      done = [];
      kept = entries;
      split = refl;
      state = ap some (sym e₂);
      old = tt;
      stops = stops;
      stored = λ left on valid st. ap (λ (f : Fsm setup). logs.entries f.ircstore) e₁ ∙ st;
      states = ap (λ (f : Fsm setup). f.last_snapshot_state) e₁;
    }

    -- Whatever the loop ends with, it has compacted a prefix of the entries.
    pub compact-Compaction :
        (entries : Entries setup) (fsm fsm' : Fsm setup) (tmp tmp' : IrcServer) (first' : ℕ)
        → Ends entries fsm tmp first' fsm' tmp'
        → Compaction setup logs end entries first fsm tmp first' fsm' tmp'
    compact-Compaction [] fsm fsm' tmp tmp' first' h =
        let facts = compact-nil fsm fsm' tmp tmp' first' h in
        stop_here [] fsm fsm' tmp tmp' first' facts.0 facts.1 facts.2
    compact-Compaction ((i, value) ∷ rest) fsm fsm' tmp tmp' first' h =
        elim (ReadEntry-cases setup (read_entry setup value)) [
          | inl e ↦ go_on-skipped i value rest fsm fsm' tmp tmp' first' e (
              compact-Compaction rest fsm fsm' tmp tmp' first'
                (compact-skipped i value rest fsm fsm' tmp tmp' first' e h))
          | inr (inl bad) ↦ absurd (compact-refused i value rest fsm fsm' tmp tmp' first' bad h)
          | inr (inr (msg, e)) ↦ elim (Bool-cases (ltb end (timestamp msg))) [
            | inl newer ↦
                let facts = compact-newer i value rest fsm fsm' tmp tmp' first' msg e newer h in
                stop_here ((i, value) ∷ rest) fsm fsm' tmp tmp' first'
                  (facts.0, msg, e, ground arith) facts.1 facts.2
            | inr older ↦
                let (p, message, ends) =
                  compact-older i value rest fsm fsm' tmp tmp' first' msg e older h in
                go_on-older i value rest fsm fsm' tmp tmp' first' msg p e older message
                  (compact-Compaction rest p.0 fsm' p.1 tmp' first' ends)
          ]
        ]
