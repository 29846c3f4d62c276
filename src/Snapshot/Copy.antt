-- ===== src/Snapshot/Copy.antt =====
-- internal/ircserver/serialize.go: which servers a snapshot can store, and when a server is a copy
-- of another one.
use robustirc.Base.{
  All, List, Option, [], false, if◌then◌else◌, none, or_default, some, true, ℕ, ◌+◌, ◌<◌, ◌==◌, ◌^◌,
  ◌≡◌, ◌≢◌, ◌≤◌, ◌∷◌, ◌⊎◌, inl,
}
use robustirc.Base.Assoc.{Map, keys, lookup}
use robustirc.Base.Distinct.{Distinct}
use robustirc.Config.{Network}
use robustirc.Irc.{Env}
use robustirc.Robust.{RobustId, id_eq, unix_epoch}
use robustirc.Server.{BanPattern, Channel, IrcServer, Modes, Session, SvsHold}
use robustirc.Snapshot.{Encoding, ServerSnapshot}
use robustirc.Text.{Text, text_eq}
use robustirc.Text.Case.{chan_to_lower, nick_to_lower}
use mathlib.Core.Option

-- What is assumed of the encoders: they can be undone, durations as far as an int64 goes.
pub record IsLossless (enc : Encoding) (env : Env) : Type 0 where
  pub decode_encode : (s : ServerSnapshot) → enc.decode (enc.encode s) ≡ some s
  pub parse_duration_string :
      (d : ℕ) → d < 2 ^ 63 → env.parse_duration (enc.duration_string d) ≡ inl d
  pub hex_decode_encode : (bytes : Text) → enc.hex_decode (enc.hex_encode bytes) ≡ some bytes

-- The zero time, or one whose nanoseconds since the epoch fit in an int64.
abbrev pub InRange : ℕ → Type 0
InRange t = (t ≡ 0) ⊎ ((unix_epoch ≤ t + 2 ^ 63) × (t < unix_epoch + 2 ^ 63))

-- The letters that a loop from 'A' to 'z' visits.
abbrev pub AreLetters : Modes → Type 0
AreLetters modes = (c : ℕ) → modes c ≡ true → (b'A' ≤ c) × (c < b'z')

abbrev pub AreChannelKeys : List Text → Type 0
AreChannelKeys names = All (λ name. chan_to_lower name ≡ name) names × Distinct names

pub record IsStorableSession (id : RobustId) (s : Session) : Type 0 where
  pub own_id : s.id ≡ id
  pub live : s.deleted ≡ false
  pub was_created : 0 < s.created
  pub activity : InRange s.last_activity
  pub non_ping : InRange s.last_non_ping
  pub not_zero : s.last_non_ping ≢ 0
  pub captcha : InRange s.last_solved_captcha
  pub letters : AreLetters s.modes
  pub on_channels : AreChannelKeys s.channels
  pub invitations : AreChannelKeys s.invited_to

abbrev pub AreStorable : (ℕ → Session) → Map RobustId ℕ → Type 0
AreStorable heap [] = Unit
AreStorable heap ((id, r) ∷ m) = IsStorableSession id (heap r) × AreStorable heap m

-- A map whose keys are nicknames in lower case, each once.
abbrev pub AreNickKeys : List Text → Type 0
AreNickKeys nicks = All (λ nick. nick_to_lower nick ≡ nick) nicks × Distinct nicks

module _ ⦃env : Env⦄ where
  abbrev pub IsStorableChannel : Text → Channel → Type 0
  IsStorableChannel key c =
      (chan_to_lower c.name ≡ key)
      × InRange c.topic_time
      × AreLetters c.modes
      × AreNickKeys (keys c.nicks)
      × All (λ (b : BanPattern). env.compile_error b.source ≡ none) c.bans

  abbrev pub AreStorableChannels : Map Text Channel → Type 0
  AreStorableChannels [] = Unit
  AreStorableChannels ((key, c) ∷ m) = IsStorableChannel key c × AreStorableChannels m

abbrev pub AreStorableHolds : Map Text SvsHold → Type 0
AreStorableHolds [] = Unit
AreStorableHolds ((nick, h) ∷ m) = InRange h.added × (h.duration < 2 ^ 63) × AreStorableHolds m

-- The session that carries a nickname, the last one in the order of the map.
abbrev pub carrier : Text → (ℕ → Session) → Map RobustId ℕ → Option ℕ
carrier nick heap [] = none
carrier nick heap ((id, r) ∷ m) = elim (carrier nick heap m) [
  | some q ↦ some q
  | none ↦ if nick_to_lower (heap r).nick == nick then some r else none
]

-- The ids of the sessions of services.
abbrev pub server_ids : (ℕ → Session) → Map RobustId ℕ → List ℕ
server_ids heap [] = []
server_ids heap ((id, r) ∷ m) =
    let rest = server_ids heap m in if (heap r).server then id.id ∷ rest else rest

-- A server whose sessions, channels, holds and durations Unmarshal reads as they are: no session is
-- deleted, the keys of the maps are lower case, and the times fit. The index of nicknames and the
-- list of services may hold anything.
pub record IsStorable ⦃env : Env⦄ (i : IrcServer) : Type 0 where
  pub each_session : AreStorable i.heap i.sessions
  pub session_ids : Distinct (keys i.sessions)
  pub each_channel : AreStorableChannels i.channels
  pub channel_keys : Distinct (keys i.channels)
  pub each_hold : AreStorableHolds i.svsholds
  pub hold_keys : AreNickKeys (keys i.svsholds)
  pub expiration : i.config.session_expiration < 2 ^ 63
  pub cooloff : i.config.post_message_cooloff < 2 ^ 63

-- The session with an id or a nickname, whatever its reference.
abbrev pub session_with_id : RobustId → IrcServer → Option Session
session_with_id id i = Option.map i.heap (lookup id i.sessions)

abbrev pub session_with_nick : Text → IrcServer → Option Session
session_with_nick nick i = Option.map i.heap (lookup nick i.nicks)

-- The configuration as a snapshot keeps it: without the whitelisted origins, and with an empty
-- secret where there is none.
abbrev pub stored_config : Network → Network
stored_config c = record c {
  whitelisted_origins = [];
  captcha_hmac_secret = some (or_default [] c.captcha_hmac_secret);
}

-- The index of nicknames and the list of services are made anew, from the sessions.
pub record IsCopy (i j : IrcServer) : Type 0 where
  pub by_id : (id : RobustId) → session_with_id id j ≡ session_with_id id i
  pub by_nick :
      (nick : Text) → session_with_nick nick j ≡ Option.map i.heap (carrier nick i.heap i.sessions)
  pub services : j.server_sessions ≡ server_ids i.heap i.sessions
  pub channels : j.channels ≡ i.channels
  pub svsholds : j.svsholds ≡ i.svsholds
  pub last_processed : j.last_processed ≡ i.last_processed
  pub config : j.config ≡ stored_config i.config
