-- ===== src/Snapshot/RoundTrip.antt =====
-- internal/ircserver/serialize.go: Unmarshal after Marshal.
use robustirc.Base.{Option, [], none, refl, some, ℕ, ◌++◌, ◌∙◌, ◌≡◌, ap}
use robustirc.Base.Assoc.{Map, keys, lookup}
use robustirc.Base.Distinct.{Apart-nil}
use robustirc.Irc.{Env}
use robustirc.Server.{Channel, IrcServer, SvsHold, new_irc_server}
use robustirc.Snapshot.{Encoding}
use robustirc.Snapshot.Copy.{IsCopy, IsLossless, IsStorable, stored_config}
use robustirc.Snapshot.Channels.{
  unmarshal_channels-marshal_channels, unmarshal_config-marshal_config,
  unmarshal_holds-marshal_holds,
}
use robustirc.Snapshot.Decode.{
  go_on, restored, unmarshal, unmarshal_channels, unmarshal_holds, unmarshal_sessions,
  unmarshal_snapshot,
}
use robustirc.Snapshot.Encode.{
  marshal, marshal_channels, marshal_holds, marshal_sessions, snapshot_of,
}
use robustirc.Snapshot.Sessions.{
  HasAllocated, add_sessions, add_sessions-KeepsRest, add_sessions-id, add_sessions-nick,
  add_sessions-services, or_else, unmarshal_sessions-marshal_sessions,
}
use robustirc.Text.{Text, text_eq}

module _ ⦃env : Env⦄ ⦃enc : Encoding⦄ (lossless : IsLossless enc env) (i : IrcServer)
    (stored : IsStorable i) (network : Text) (creation : ℕ) (last : ℕ) where
  abbrev empty : IrcServer
  empty = new_irc_server network creation

  -- The server after the loop over the sessions, and the one at the end.
  abbrev with_sessions : IrcServer
  with_sessions = add_sessions i.heap i.sessions empty

  abbrev pub restored_server : IrcServer
  restored_server = record with_sessions {
    channels = i.channels;
    svsholds = i.svsholds;
    last_processed = i.last_processed;
    config = stored_config i.config;
  }

  empty-HasAllocated : HasAllocated empty
  unfolding new_irc_server lookup
  empty-HasAllocated = record { of_sessions = λ id r h. cc; of_nicks = λ nick r h. cc }

  sessions-channels : with_sessions.channels ≡ []
  unfolding new_irc_server
  sessions-channels = (add_sessions-KeepsRest i.heap i.sessions empty).channels

  sessions-svsholds : with_sessions.svsholds ≡ []
  unfolding new_irc_server
  sessions-svsholds = (add_sessions-KeepsRest i.heap i.sessions empty).svsholds

  abbrev with_channels : IrcServer
  with_channels = record with_sessions { channels = i.channels }

  abbrev with_holds : IrcServer
  with_holds = record with_channels { svsholds = i.svsholds }

  after_sessions :
      unmarshal_sessions (marshal_sessions i.heap i.sessions) empty ≡ some with_sessions
  after_sessions = unmarshal_sessions-marshal_sessions i.heap i.sessions empty stored.each_session

  after_channels :
      unmarshal_channels (marshal_channels i.channels) with_sessions ≡ go_on with_channels
  after_channels =
      unmarshal_channels-marshal_channels i.channels with_sessions stored.each_channel
        stored.channel_keys (rw sessions-channels (Apart-nil (keys i.channels)))
      ∙ ap (λ (cs : Map Text Channel). go_on (record with_sessions { channels = cs ++ i.channels }))
          sessions-channels

  after_holds : unmarshal_holds (marshal_holds i.svsholds) with_channels ≡ go_on with_holds
  after_holds =
      unmarshal_holds-marshal_holds lossless i.svsholds with_channels stored.each_hold
        stored.hold_keys (rw sessions-svsholds (Apart-nil (keys i.svsholds)))
      ∙ ap (λ (hs : Map Text SvsHold). go_on (record with_channels { svsholds = hs ++ i.svsholds }))
          sessions-svsholds

  unmarshal-snapshot_of :
      unmarshal_snapshot (snapshot_of last i) empty ≡ restored last restored_server
  unfolding unmarshal_snapshot snapshot_of
  unmarshal-snapshot_of =
      rw (after_sessions, unmarshal_snapshot)
        (rw (after_channels, unmarshal_snapshot)
          (rw (after_holds, unmarshal_snapshot)
            (unmarshal_config-marshal_config lossless i.last_processed i.config last with_holds
              stored.expiration stored.cooloff)))

  or_else-none {ℓ} : {A : Type ℓ} (o : Option A) → or_else o none ≡ o
  or_else-none none = refl
  or_else-none (some a) = refl

  restored-IsCopy : IsCopy i restored_server
  unfolding new_irc_server lookup
  restored-IsCopy = record {
    by_id = λ id.
        add_sessions-id i.heap i.sessions empty id empty-HasAllocated stored.each_session
          stored.session_ids
        ∙ or_else-none _;
    by_nick =
        λ nick. add_sessions-nick i.heap i.sessions empty nick empty-HasAllocated ∙ or_else-none _;
    services = add_sessions-services i.heap i.sessions empty stored.each_session;
    channels = refl;
    svsholds = refl;
    last_processed = refl;
    config = refl;
  }

-- For codecs that lose nothing, and every server in which no session is marked as deleted, each
-- session stands under its own id and has a creation time and a time of its last line but PING, each
-- channel stands under its name in lower case, the names of members, of holds, and of the channels
-- and invitations of sessions are in lower case, no key of these maps stands twice, modes are letters
-- from A to y, the patterns of bans compile, and times and durations fit in 64 bits: Unmarshal of
-- what Marshal wrote, onto a new server, returns the index that Marshal was given, and a server that
-- has the same session under every id, and the same channels, held nicknames, last processed id and
-- configuration, but for the whitelisted origins, which are gone, and a missing secret for captchas,
-- which is empty. Whatever the index of nicknames and the list of services were, they are made anew:
-- a nickname, the empty one too, leads to the last session that carries it, up to its capitals, and
-- the list holds the ids of the sessions of services that exist.
pub unmarshal-marshal :
    ⦃env : Env⦄ ⦃enc : Encoding⦄ (i : IrcServer) (network : Text) (creation last : ℕ)
    → IsLossless enc env
    → IsStorable i
    → (j : IrcServer) × (unmarshal (marshal last i) (new_irc_server network creation)
        ≡ restored last j)
      × IsCopy i j
unfolding unmarshal marshal
unmarshal-marshal ⦃env⦄ ⦃enc⦄ i network creation last lossless stored = (
  restored_server lossless i stored network creation last,
  rw (lossless.decode_encode (snapshot_of last i), unmarshal)
      (unmarshal-snapshot_of lossless i stored network creation last),
  restored-IsCopy lossless i stored network creation last,
)
