-- ===== src/Compaction/Replay.antt =====
-- statemachine.go: what the loop of Snapshot applies, keeps and deletes.
use robustirc.Base.{
  All, Option, [], arith, false, inl, inr, nat_eq, none, refl, some, ℕ, ◌++◌, ◌<◌, ◌∷◌, ◌≡◌, ◌≤◌,
  ◌⊎◌,
}
use robustirc.Base.Assoc.{Map}
use robustirc.Compaction.{
  Fsm, ReadEntry, Setup, not_command, read_entry, readable, skipped, unparsable,
}
use robustirc.Fsm.{applied, apply_robust_message, message_of_death_panic}
use robustirc.Irc.{Env}
use robustirc.LogStore.{IsLogStore}
use robustirc.Robust.{Message, timestamp}
use robustirc.Server.{IrcServer}
use robustirc.Wire.{LogValue}

module _ ⦃env : Env⦄ (setup : Setup) where
  abbrev pub Entries : Type 0
  Entries = Map ℕ (LogValue setup.wire)

  -- A server with no output after a message; none where it panics.
  abbrev pub server_after : Message → IrcServer → Option IrcServer
  server_after msg i =
      elim (apply_robust_message setup.from_string msg msg.type
        (record { server = i; output = none })) [
          | applied n err ↦ some n.server
          | message_of_death_panic ↦ none
        ]

  -- The messages of some entries, one after the other; what does not decode is skipped.
  unfoldable pub replay : Entries → IrcServer → Option IrcServer
  replay [] i = some i
  replay ((k, value) ∷ m) i =
      let next = replay m in
      elim (read_entry setup value) [
        | readable msg ↦ elim (server_after msg i) [ none ↦ none | some i' ↦ next i' ]
        | skipped ↦ next i
        | _ ↦ none
      ]

  -- The entries that do not decode.
  unfoldable pub unreadable : Entries → Entries
  unreadable [] = []
  unreadable ((k, value) ∷ m) =
      let rest = unreadable m in
      elim (read_entry setup value) [ skipped ↦ (k, value) ∷ rest | _ ↦ rest ]

  pub unreadable-skipped :
      (k : ℕ) (value : LogValue setup.wire) (m : Entries)
      → read_entry setup value ≡ skipped
      → unreadable ((k, value) ∷ m) ≡ (k, value) ∷ unreadable m
  unfolding unreadable
  unreadable-skipped k value m e = ground arith

  pub unreadable-readable :
      (k : ℕ) (value : LogValue setup.wire) (m : Entries) (msg : Message)
      → read_entry setup value ≡ readable msg
      → unreadable ((k, value) ∷ m) ≡ unreadable m
  unfolding unreadable
  unreadable-readable k value m msg e = ground arith

  pub replay-readable :
      (k : ℕ) (value : LogValue setup.wire) (m : Entries) (msg : Message) (i i' : IrcServer)
      → read_entry setup value ≡ readable msg
      → server_after msg i ≡ some i'
      → replay ((k, value) ∷ m) i ≡ replay m i'
  unfolding replay
  replay-readable k value m msg i i' e after = rw (e, replay) (rw (after, replay) refl)

  pub ReadEntry-cases :
      (r : ReadEntry setup)
      → (r ≡ skipped)
        ⊎ (((r ≡ not_command) ⊎ (r ≡ unparsable)) ⊎ ((msg : Message) × (r ≡ readable msg)))
  ReadEntry-cases skipped = inl refl
  ReadEntry-cases not_command = inr (inl (inl refl))
  ReadEntry-cases unparsable = inr (inl (inr refl))
  ReadEntry-cases (readable msg) = inr (inr (msg, refl))

  -- A message that is old enough, or none at all.
  abbrev pub IsOld : ℕ → ℕ × LogValue setup.wire → Type 0
  IsOld end (k, value) =
      (msg : Message) → read_entry setup value ≡ readable msg → timestamp msg ≤ end

  -- Where the loop stops: at the first message that is too new, or at the end.
  abbrev pub StopsAt : ℕ → Entries → ℕ → ℕ → Type 0
  StopsAt end [] first first' = first' ≡ first
  StopsAt end ((k, value) ∷ m) first first' =
      (first' ≡ k)
      × (msg : Message) × (read_entry setup value ≡ readable msg)
      × (end < timestamp msg)

  -- What a run of the loop over some entries has done, up to an index and a server.
  pub record Compaction (logs : IsLogStore setup.logs) (end : ℕ) (entries : Entries) (first : ℕ)
      (fsm : Fsm setup) (tmp : IrcServer) (first' : ℕ) (fsm' : Fsm setup) (tmp' : IrcServer)
      : Type 0 where
    pub done : Entries
    pub kept : Entries
    pub split : entries ≡ done ++ kept
    pub state : replay done tmp ≡ some tmp'
    pub old : All (IsOld end) done
    pub stops : StopsAt end kept first first'
    pub stored :
        (left : Entries)
        → fsm.skip_deletion_for_canary ≡ false
        → logs.IsDb fsm.ircstore
        → logs.entries fsm.ircstore ≡ left ++ entries
        → logs.entries fsm'.ircstore ≡ left ++ (unreadable done ++ kept)
    pub states : fsm'.last_snapshot_state ≡ fsm.last_snapshot_state
