-- ===== src/Snapshot/Decode.antt =====
-- internal/ircserver/serialize.go: Unmarshal, onto a server. It returns the index, an error with the
-- server as it is by then, or it panics at a mode that is empty or out of range.
use robustirc.Base.{
  Bool, List, Option, [], add_elem, false, if◌then◌else◌, inl, inr, ltb, map, nat_beq, none, not,
  some, suc, true, ℕ, ◌&&◌, ◌++◌, ◌+◌, ◌-◌, ◌==◌, ◌^◌, ◌∷◌,
}
use robustirc.Base.Assoc.{Map, insert}
use robustirc.Config.{IrcOp, Service}
use robustirc.Irc.{Env}
use robustirc.Robust.{RobustId, id_eq, unix_epoch}
use robustirc.Server.{
  BanPattern, Channel, IrcServer, Modes, Perms, Session, no_modes, no_perms, set_mode, set_session,
}
use robustirc.Snapshot.{
  Encoding, ProtoBool, ServerSnapshot, SnapshotBan, SnapshotChannel, SnapshotConfig, SnapshotHold,
  SnapshotOperator, SnapshotSession, Timestamp, is_false, is_true, unset,
}
use robustirc.Text.{Text, text_eq}
use robustirc.Text.Case.{chan_to_lower, nick_to_lower}

-- time.Unix(0, n) of an int64
unfoldable pub from_unix_nano : ℕ → ℕ
from_unix_nano n = if ltb n (2 ^ 63) then unix_epoch + n else unix_epoch + n - 2 ^ 64

-- timestampToTime
unfoldable pub timestamp_to_time : Option Timestamp → ℕ
timestamp_to_time none = 0
timestamp_to_time (some t) = if t.is_zero then 0 else from_unix_nano t.unix_nano

-- A set of channels from a list of names.
unfoldable pub channel_set : List Text → List Text → List Text
channel_set [] seen = seen
channel_set (name ∷ names) seen = channel_set names (add_elem (chan_to_lower name) seen)

-- modes[mode[0]] = true; none is an index out of range.
unfoldable pub read_modes : List Text → Modes → Option Modes
read_modes [] modes = some modes
read_modes ([] ∷ rest) modes = none
read_modes ((c ∷ cs) ∷ rest) modes =
    let next = read_modes rest (set_mode c true modes) in if ltb c b'z' then next else none

unfoldable pub read_perms : List Text → Perms → Option Perms
read_perms [] p = some p
read_perms ([] ∷ rest) p = none
read_perms ((c ∷ cs) ∷ rest) p =
    let op = read_perms rest (record p { chanop = true }) in
    let voiced = read_perms rest (record p { voice = true }) in
    if nat_beq c 0 then op else if nat_beq c 1 then voiced else none

unfoldable pub read_members : Map Text (List Text) → Map Text Perms → Option (Map Text Perms)
read_members [] nicks = some nicks
read_members ((nick, modes) ∷ m) nicks = elim (read_perms modes no_perms) [
  | none ↦ none
  | some p ↦ read_members m (insert (nick_to_lower nick) p nicks)
]

unfoldable pub read_logged_in : ProtoBool → Text → Text → Bool
read_logged_in unset nick username = not (nick == []) && not (username == [])
read_logged_in is_true nick username = true
read_logged_in is_false nick username = false

-- The new session of a snapshot's session, with these modes.
unfoldable pub read_session : SnapshotSession → Modes → Session
read_session s modes =
    let last_non_ping = timestamp_to_time s.last_non_ping in
    let last_activity = timestamp_to_time s.last_activity in
    record {
      id = record { id = s.id.id; reply = s.id.reply };
      auth = s.auth;
      logged_in = read_logged_in s.logged_in s.nick s.username;
      nick = s.nick;
      username = s.username;
      realname = s.realname;
      channels = channel_set s.channels [];
      last_activity = last_activity;
      last_non_ping = if nat_beq last_non_ping 0 then last_activity else last_non_ping;
      last_solved_captcha = timestamp_to_time s.last_solved_captcha;
      operator = s.operator;
      away_msg = s.away_msg;
      created = if ltb 0 s.created then s.created else s.id.id;
      throttling_exponent = s.throttling_exponent;
      invited_to = channel_set s.invited_to [];
      modes = modes;
      svid = s.svid;
      pass = s.pass;
      server = s.server;
      last_client_message_id = s.last_client_message_id;
      irc_prefix = record {
        name = s.irc_prefix.name;
        user = s.irc_prefix.user;
        host = s.irc_prefix.host;
      };
      deleted = false;
      remote_addr = s.remote_addr;
    }

-- i.sessions, i.serverSessions and i.nicks for a new session
unfoldable pub add_session : Session → IrcServer → IrcServer
add_session s i = record i {
  heap = set_session i.next_ref s i.heap;
  next_ref = suc i.next_ref;
  sessions = insert s.id i.next_ref i.sessions;
  server_sessions = if s.server then i.server_sessions ++ s.id.id ∷ [] else i.server_sessions;
  nicks = insert (nick_to_lower s.nick) i.next_ref i.nicks;
}

-- for _, s := range snapshot.Sessions; none is a panic
unfoldable pub unmarshal_sessions : List SnapshotSession → IrcServer → Option IrcServer
unmarshal_sessions [] i = some i
unmarshal_sessions (s ∷ rest) i = elim (read_modes s.modes no_modes) [
  | none ↦ none
  | some modes ↦ unmarshal_sessions rest (add_session (read_session s modes) i)
]

-- What Unmarshal comes to.
pub data Unmarshalled : Type 0 where
  restored : ℕ → IrcServer → Unmarshalled
  unmarshal_error : IrcServer → Unmarshalled
  unmarshal_panic : Unmarshalled

-- A loop over one of the lists: the server after it, or how Unmarshal ends in it.
pub data Loop : Type 0 where
  go_on : IrcServer → Loop
  stop : Unmarshalled → Loop

unfoldable pub read_operator : SnapshotOperator → IrcOp
read_operator o = record { name = o.name; password = o.password }

unfoldable pub read_service : Text → Service
read_service password = record { password = password }

module _ ⦃env : Env⦄ where
  -- The bans of a channel; none if a regular expression does not compile.
  unfoldable pub read_bans : List SnapshotBan → Option (List BanPattern)
  read_bans [] = some []
  read_bans (b ∷ bs) =
      let rest = read_bans bs in
      elim (env.compile_error b.regexp) [
        | some _ ↦ none
        | none ↦ elim rest [
          | none ↦ none
          | some bans ↦ some (record { source = b.regexp; pattern = b.pattern } ∷ bans)
        ]
      ]

  unfoldable pub read_channel : SnapshotChannel → Map Text Perms → Modes → List BanPattern → Channel
  read_channel c nicks modes bans = record {
    name = c.name;
    topic_nick = c.topic_nick;
    topic_time = timestamp_to_time c.topic_time;
    topic = c.topic;
    nicks = nicks;
    modes = modes;
    bans = bans;
  }

  -- for _, c := range snapshot.Channels
  unfoldable pub unmarshal_channels : List SnapshotChannel → IrcServer → Loop
  unmarshal_channels [] i = go_on i
  unmarshal_channels (c ∷ rest) i = elim (read_members c.nicks []) [
    | none ↦ stop unmarshal_panic
    | some nicks ↦ elim (read_modes c.modes no_modes) [
      | none ↦ stop unmarshal_panic
      | some modes ↦ elim (read_bans c.bans) [
        | none ↦ stop (unmarshal_error i)
        | some bans ↦ unmarshal_channels rest (record i {
          channels = insert (chan_to_lower c.name) (read_channel c nicks modes bans) i.channels;
        })
      ]
    ]
  ]

  -- for nickName, s := range snapshot.Svsholds
  unfoldable pub unmarshal_holds : Map Text SnapshotHold → IrcServer → Loop
  unmarshal_holds [] i = go_on i
  unmarshal_holds ((nick, h) ∷ m) i = elim (env.parse_duration h.duration) [
    | inr err ↦ stop (unmarshal_error i)
    | inl duration ↦ unmarshal_holds m (record i {
      svsholds =
          insert (nick_to_lower nick)
            (record { added = timestamp_to_time h.added; duration = duration; reason = h.reason })
            i.svsholds;
    })
  ]

module _ ⦃env : Env⦄ ⦃enc : Encoding⦄ where
  -- i.lastProcessed and i.Config
  unfoldable pub unmarshal_config : RobustId → SnapshotConfig → ℕ → IrcServer → Unmarshalled
  unmarshal_config last_processed c last i =
      let i' : IrcServer = record i {
        last_processed = record { id = last_processed.id; reply = last_processed.reply };
      } in
      elim (env.parse_duration c.session_expiration) [
        | inr err ↦ unmarshal_error i'
        | inl session_expiration ↦ elim (env.parse_duration c.post_message_cooloff) [
          | inr err ↦ unmarshal_error i'
          | inl post_message_cooloff ↦ elim (enc.hex_decode c.captcha_hmac_secret) [
            | none ↦ unmarshal_error i'
            | some hmac_secret ↦ restored last (record i' {
              config = record {
                revision = c.revision;
                irc = record {
                  operators = map read_operator c.operators;
                  services = map read_service c.services;
                };
                session_expiration = session_expiration;
                post_message_cooloff = post_message_cooloff;
                trusted_bridges = c.trusted_bridges;
                captcha_url = c.captcha_url;
                captcha_hmac_secret = some hmac_secret;
                captcha_required_for_login = c.captcha_required_for_login;
                max_sessions = c.max_sessions;
                max_channels = c.max_channels;
                banned = c.banned;
                whitelisted_origins = [];
              };
            })
          ]
        ]
      ]

  abbrev pub and_then : Loop → (IrcServer → Unmarshalled) → Unmarshalled
  and_then (go_on i) next = next i
  and_then (stop u) next = u

  unfoldable pub unmarshal_snapshot : ServerSnapshot → IrcServer → Unmarshalled
  unmarshal_snapshot snapshot i = elim (unmarshal_sessions snapshot.sessions i) [
    | none ↦ unmarshal_panic
    | some i₁ ↦ and_then (unmarshal_channels snapshot.channels i₁) (λ i₂.
        and_then (unmarshal_holds snapshot.svsholds i₂) (λ i₃.
          unmarshal_config snapshot.last_processed snapshot.config snapshot.last_included_index i₃))
  ]

  -- Unmarshal
  unfoldable pub unmarshal : enc.Bytes → IrcServer → Unmarshalled
  unmarshal bytes i = elim (enc.decode bytes) [
    | none ↦ unmarshal_error i
    | some snapshot ↦ unmarshal_snapshot snapshot i
  ]
