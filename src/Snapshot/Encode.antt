-- ===== src/Snapshot/Encode.antt =====
-- internal/ircserver/serialize.go: Marshal. Errors of proto.Marshal are left out.
use robustirc.Base.{
  List, [], if◌then◌else◌, map, nat_beq, or_default, some, suc, zero, ℕ, ◌%◌, ◌++◌, ◌+◌, ◌-◌, ◌^◌,
  ◌∷◌,
}
use robustirc.Base.Assoc.{Map}
use robustirc.Config.{IrcOp, Network, Service}
use robustirc.Robust.{RobustId, unix_epoch}
use robustirc.Server.{BanPattern, Channel, IrcServer, Modes, Perms, Session, SvsHold}
use robustirc.Snapshot.{
  Encoding, ServerSnapshot, SnapshotBan, SnapshotChannel, SnapshotConfig, SnapshotHold,
  SnapshotOperator, SnapshotSession, Timestamp, is_false, is_true,
}
use robustirc.Text.{Text}

-- time.Time.UnixNano, which wraps around out of the range of an int64
unfoldable pub unix_nano : ℕ → ℕ
unix_nano t = (t + 2 ^ 66 - unix_epoch) % 2 ^ 64

-- timeToTimestamp
unfoldable pub time_to_timestamp : ℕ → Timestamp
time_to_timestamp t = record { unix_nano = unix_nano t; is_zero = nat_beq t 0 }

-- for mode := 'A'; mode < 'z'; mode++, over the modes from the first on
unfoldable pub mode_letters : ℕ → ℕ → Modes → List Text
mode_letters zero mode modes = []
mode_letters (suc count) mode modes =
    let rest = mode_letters count (mode + 1) modes in
    if modes mode then (mode ∷ []) ∷ rest else rest

-- 'A' and the number of letters below 'z'
abbrev pub first_mode : ℕ
first_mode = b'A'

abbrev pub mode_count : ℕ
mode_count = 57

unfoldable pub marshal_modes : Modes → List Text
marshal_modes = mode_letters mode_count first_mode

unfoldable pub marshal_session : RobustId → Session → SnapshotSession
marshal_session id s = record {
  id = id;
  auth = s.auth;
  logged_in = if s.logged_in then is_true else is_false;
  nick = s.nick;
  username = s.username;
  realname = s.realname;
  channels = s.channels;
  last_activity = some (time_to_timestamp s.last_activity);
  last_non_ping = some (time_to_timestamp s.last_non_ping);
  last_solved_captcha = some (time_to_timestamp s.last_solved_captcha);
  operator = s.operator;
  away_msg = s.away_msg;
  created = s.created;
  throttling_exponent = s.throttling_exponent;
  invited_to = s.invited_to;
  modes = marshal_modes s.modes;
  svid = s.svid;
  pass = s.pass;
  server = s.server;
  last_client_message_id = s.last_client_message_id;
  irc_prefix = record {
    name = s.irc_prefix.name;
    user = s.irc_prefix.user;
    host = s.irc_prefix.host;
  };
  remote_addr = s.remote_addr;
}

-- for id, session := range i.sessions
unfoldable pub marshal_sessions : (ℕ → Session) → Map RobustId ℕ → List SnapshotSession
marshal_sessions heap [] = []
marshal_sessions heap ((id, r) ∷ m) = marshal_session id (heap r) ∷ marshal_sessions heap m

-- The names of the statuses are the characters with the numbers chanop and voice.
unfoldable pub marshal_perms : Perms → List Text
marshal_perms p =
    (if p.chanop then (0 ∷ []) ∷ [] else []) ++ (if p.voice then (1 ∷ []) ∷ [] else [])

unfoldable pub marshal_members : Map Text Perms → Map Text (List Text)
marshal_members [] = []
marshal_members ((nick, p) ∷ m) = (nick, marshal_perms p) ∷ marshal_members m

unfoldable pub marshal_ban : BanPattern → SnapshotBan
marshal_ban b = record { pattern = b.pattern; regexp = b.source }

unfoldable pub marshal_channel : Channel → SnapshotChannel
marshal_channel c = record {
  name = c.name;
  topic_nick = c.topic_nick;
  topic_time = some (time_to_timestamp c.topic_time);
  topic = c.topic;
  nicks = marshal_members c.nicks;
  modes = marshal_modes c.modes;
  bans = map marshal_ban c.bans;
}

-- for _, channel := range i.channels
unfoldable pub marshal_channels : Map Text Channel → List SnapshotChannel
marshal_channels [] = []
marshal_channels ((key, c) ∷ m) = marshal_channel c ∷ marshal_channels m

unfoldable pub marshal_operator : IrcOp → SnapshotOperator
marshal_operator o = record { name = o.name; password = o.password }

unfoldable pub marshal_service : Service → Text
marshal_service s = s.password

module _ ⦃enc : Encoding⦄ where
  -- for nickName, svshold := range i.svsholds
  unfoldable pub marshal_holds : Map Text SvsHold → Map Text SnapshotHold
  marshal_holds [] = []
  marshal_holds ((nick, h) ∷ m) =
      (
        nick,
        record {
          added = some (time_to_timestamp h.added);
          duration = enc.duration_string h.duration;
          reason = h.reason;
        },
      )
      ∷ marshal_holds m

  unfoldable pub marshal_config : Network → SnapshotConfig
  marshal_config c = record {
    revision = c.revision;
    operators = map marshal_operator c.irc.operators;
    services = map marshal_service c.irc.services;
    session_expiration = enc.duration_string c.session_expiration;
    post_message_cooloff = enc.duration_string c.post_message_cooloff;
    trusted_bridges = c.trusted_bridges;
    captcha_url = c.captcha_url;
    captcha_hmac_secret = enc.hex_encode (or_default [] c.captcha_hmac_secret);
    captcha_required_for_login = c.captcha_required_for_login;
    max_sessions = c.max_sessions;
    max_channels = c.max_channels;
    banned = c.banned;
  }

  unfoldable pub snapshot_of : ℕ → IrcServer → ServerSnapshot
  snapshot_of last_included_index i = record {
    sessions = marshal_sessions i.heap i.sessions;
    channels = marshal_channels i.channels;
    svsholds = marshal_holds i.svsholds;
    last_processed = i.last_processed;
    config = marshal_config i.config;
    last_included_index = last_included_index;
  }

  -- Marshal
  unfoldable pub marshal : ℕ → IrcServer → enc.Bytes
  marshal last_included_index i = enc.encode (snapshot_of last_included_index i)
