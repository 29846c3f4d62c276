-- ===== src/Snapshot/Channels.antt =====
-- internal/ircserver/serialize.go: the channels, the held nicknames and the configuration.
use robustirc.Base.{
  All, List, [], arith, inl, map, none, or_default, refl, some, ℕ, ◌++◌, ◌<◌, ◌^◌, ◌∙◌, ◌∷◌, ◌≡◌,
}
use robustirc.Base.Assoc.{Map, insert, keys}
use robustirc.Base.Distinct.{Apart, Apart-append, Distinct, insert-append, keys-append}
use robustirc.Config.{IrcOp, Network, Service}
use robustirc.Irc.{Env}
use robustirc.Robust.{RobustId}
use robustirc.Server.{BanPattern, Channel, IrcServer, Modes, Perms, SvsHold, no_modes}
use robustirc.Snapshot.{Encoding, SnapshotChannel}
use robustirc.Snapshot.Copy.{
  AreNickKeys, AreStorableChannels, AreStorableHolds, IsLossless, IsStorableChannel, stored_config,
}
use robustirc.Snapshot.Decode.{
  go_on, read_bans, read_channel, read_members, read_modes, read_operator, read_service, restored,
  timestamp_to_time, unmarshal_channels, unmarshal_config, unmarshal_holds,
}
use robustirc.Snapshot.Encode.{
  marshal_ban, marshal_channel, marshal_channels, marshal_config, marshal_holds, marshal_operator,
  marshal_service, time_to_timestamp,
}
use robustirc.Snapshot.Fields.{
  read_members-marshal_members, read_modes-marshal_modes, timestamp_to_time-time_to_timestamp,
}
use robustirc.Text.{Text, text_eq}
use robustirc.Text.Case.{chan_to_lower, nick_to_lower}
use mathlib.Core.List.{append_assoc, append-nil}

module _ ⦃env : Env⦄ where
  read_bans_step :
      (b : BanPattern) (bs : List BanPattern)
      → env.compile_error b.source ≡ none
      → read_bans (map marshal_ban bs) ≡ some bs
      → read_bans (map marshal_ban (b ∷ bs)) ≡ some (b ∷ bs)
  unfolding read_bans marshal_ban
  read_bans_step b bs compiles rest = ground arith

  read_bans-marshal_ban :
      (bs : List BanPattern)
      → All (λ (b : BanPattern). env.compile_error b.source ≡ none) bs
      → read_bans (map marshal_ban bs) ≡ some bs
  read_bans-marshal_ban [] compile = unfold read_bans in refl
  read_bans-marshal_ban (b ∷ bs) (compiles, compile) =
      read_bans_step b bs compiles (read_bans-marshal_ban bs compile)

  unmarshal_channels_step :
      (c : SnapshotChannel) (rest : List SnapshotChannel) (i : IrcServer) {nicks : Map Text Perms}
      {modes : Modes} {bans : List BanPattern}
      → read_members c.nicks [] ≡ some nicks
      → read_modes c.modes no_modes ≡ some modes
      → read_bans c.bans ≡ some bans
      → unmarshal_channels (c ∷ rest) i
        ≡ unmarshal_channels rest (record i {
          channels = insert (chan_to_lower c.name) (read_channel c nicks modes bans) i.channels;
        })
  unfolding unmarshal_channels
  unmarshal_channels_step c rest i members letters patterns = ground arith

  read_channel-marshal_channel :
      (key : Text) (c : Channel)
      → IsStorableChannel key c
      → read_channel (marshal_channel c) c.nicks c.modes c.bans ≡ c
  unfolding read_channel marshal_channel
  read_channel-marshal_channel key c (own, topic, letters, members, bans) =
      ground (arith, timestamp_to_time-time_to_timestamp c.topic_time topic)

  unmarshal_channel :
      (key : Text) (c : Channel) (rest : List SnapshotChannel) (i : IrcServer)
      → IsStorableChannel key c
      → unmarshal_channels (marshal_channel c ∷ rest) i
        ≡ unmarshal_channels rest (record i { channels = insert key c i.channels })
  unmarshal_channel key c rest i h =
      unmarshal_channels_step (marshal_channel c) rest i {nicks = c.nicks} {modes = c.modes}
        {bans = c.bans} (unfold marshal_channel in read_members-marshal_members c.nicks h.3)
        (unfold marshal_channel in read_modes-marshal_modes c.modes h.2)
        (unfold marshal_channel in read_bans-marshal_ban c.bans h.4)
      ∙ rw (read_channel-marshal_channel key c h) (unfold marshal_channel in rw (h.0) refl)

  pub unmarshal_channels-marshal_channels :
      (m : Map Text Channel) (i : IrcServer)
      → AreStorableChannels m
      → Distinct (keys m)
      → Apart (keys m) (keys i.channels)
      → unmarshal_channels (marshal_channels m) i ≡ go_on (record i { channels = i.channels ++ m })
  unfolding marshal_channels
  unmarshal_channels-marshal_channels [] i stored distinct new =
      unfold unmarshal_channels in rw (append-nil i.channels) refl
  unmarshal_channels-marshal_channels ((key, c) ∷ m) i (h, stored) (once, distinct) (new, apart) =
      let next : IrcServer = record i { channels = i.channels ++ (key, c) ∷ [] } in
      let still : Apart (keys m) (keys next.channels) =
        rw (keys-append i.channels ((key, c) ∷ []))
          (Apart-append key (keys m) (keys i.channels) once apart) in
      unmarshal_channel key c (marshal_channels m) i h
      ∙ rw (insert-append key c i.channels new) (
          unmarshal_channels-marshal_channels m next stored distinct still
          ∙ rw (append_assoc i.channels ((key, c) ∷ []) m) refl)

module _ ⦃env : Env⦄ ⦃enc : Encoding⦄ (lossless : IsLossless enc env) where
  unmarshal_hold :
      (nick : Text) (h : SvsHold) (m : Map Text SvsHold) (i : IrcServer)
      → nick_to_lower nick ≡ nick
      → timestamp_to_time (some (time_to_timestamp h.added)) ≡ h.added
      → env.parse_duration (enc.duration_string h.duration) ≡ inl h.duration
      → unmarshal_holds (marshal_holds ((nick, h) ∷ m)) i
        ≡ unmarshal_holds (marshal_holds m) (record i { svsholds = insert nick h i.svsholds })
  unfolding unmarshal_holds marshal_holds
  unmarshal_hold nick h m i low added duration = ground arith

  pub unmarshal_holds-marshal_holds :
      (m : Map Text SvsHold) (i : IrcServer)
      → AreStorableHolds m
      → AreNickKeys (keys m)
      → Apart (keys m) (keys i.svsholds)
      → unmarshal_holds (marshal_holds m) i ≡ go_on (record i { svsholds = i.svsholds ++ m })
  unmarshal_holds-marshal_holds [] i stored keys_of new =
      unfold unmarshal_holds marshal_holds in rw (append-nil i.svsholds) refl
  unmarshal_holds-marshal_holds ((nick, h) ∷ m) i (added, short, stored)
        ((low, lows), (once, distinct)) (new, apart) =
      let next : IrcServer = record i { svsholds = i.svsholds ++ (nick, h) ∷ [] } in
      let still : Apart (keys m) (keys next.svsholds) =
        rw (keys-append i.svsholds ((nick, h) ∷ []))
          (Apart-append nick (keys m) (keys i.svsholds) once apart) in
      unmarshal_hold nick h m i low (timestamp_to_time-time_to_timestamp h.added added)
        (lossless.parse_duration_string h.duration short)
      ∙ rw (insert-append nick h i.svsholds new) (
          unmarshal_holds-marshal_holds m next stored (lows, distinct) still
          ∙ rw (append_assoc i.svsholds ((nick, h) ∷ []) m) refl)

  read_operators : (os : List IrcOp) → map read_operator (map marshal_operator os) ≡ os
  unfolding read_operator marshal_operator
  read_operators [] = refl
  read_operators (o ∷ os) = cc (read_operators os)

  read_services : (ss : List Service) → map read_service (map marshal_service ss) ≡ ss
  unfolding read_service marshal_service
  read_services [] = refl
  read_services (s ∷ ss) = cc (read_services ss)

  pub unmarshal_config-marshal_config :
      (last_processed : RobustId) (c : Network) (last : ℕ) (i : IrcServer)
      → c.session_expiration < 2 ^ 63
      → c.post_message_cooloff < 2 ^ 63
      → unmarshal_config last_processed (marshal_config c) last i
        ≡ restored last (record i { last_processed = last_processed; config = stored_config c })
  unfolding unmarshal_config marshal_config
  unmarshal_config-marshal_config last_processed c last i expiration cooloff = ground (
    arith,
    lossless.parse_duration_string c.session_expiration expiration,
    lossless.parse_duration_string c.post_message_cooloff cooloff,
    lossless.hex_decode_encode (or_default [] c.captcha_hmac_secret),
    read_operators c.irc.operators,
    read_services c.irc.services,
  )
