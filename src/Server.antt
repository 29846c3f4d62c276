-- ===== src/Server.antt =====
-- internal/ircserver/ircserver.go: the state of the IRC server.
-- Sessions are shared by pointer: `sessions` and `nicks` hold references into `heap`. A channel is
-- reached by one key only, so the map holds it directly.
use robustirc.Base.{ℕ, Bool, false, List, [], nat_beq, if◌then◌else◌}
use robustirc.Base.Assoc.{Map}
use robustirc.Text.{Text}
use robustirc.Irc.{Prefix}
use robustirc.Config.{Network, default_config}
use robustirc.Robust.{RobustId}

-- `modes ['z']bool`
abbrev pub Modes : Type 0
Modes = ℕ → Bool

abbrev pub no_modes : Modes
no_modes c = false

unfoldable pub set_mode : ℕ → Bool → Modes → Modes
set_mode char value modes c = if nat_beq c char then value else modes c

pub record Session : Type 0 where
  pub id : RobustId
  pub auth : Text
  pub logged_in : Bool
  pub nick : Text
  pub username : Text
  pub realname : Text
  -- the keys of a map[lcChan]bool that only ever stores true
  pub channels : List Text
  pub last_activity : ℕ
  pub last_non_ping : ℕ
  pub last_solved_captcha : ℕ
  pub operator : Bool
  pub away_msg : Text
  pub created : ℕ
  pub throttling_exponent : ℕ
  pub invited_to : List Text
  pub modes : Modes
  pub svid : Text
  pub pass : Text
  pub server : Bool
  pub last_client_message_id : ℕ
  pub irc_prefix : Prefix
  pub deleted : Bool
  pub remote_addr : Text

-- [maxChanMemberStatus]bool
pub record Perms : Type 0 where
  pub chanop : Bool
  pub voice : Bool

abbrev pub no_perms : Perms
no_perms = record { chanop = false; voice = false }

-- `source` is the text that `re` was compiled from
pub record BanPattern : Type 0 where
  pub source : Text
  pub pattern : Text

pub record Channel : Type 0 where
  pub name : Text
  pub topic_nick : Text
  pub topic_time : ℕ
  pub topic : Text
  pub nicks : Map Text Perms
  pub modes : Modes
  pub bans : List BanPattern

pub record SvsHold : Type 0 where
  pub added : ℕ
  pub duration : ℕ
  pub reason : Text

pub record IrcServer : Type 0 where
  -- the Session objects; those from `next_ref` on are not allocated
  pub heap : ℕ → Session
  pub next_ref : ℕ
  pub sessions : Map RobustId ℕ
  pub server_sessions : List ℕ
  pub nicks : Map Text ℕ
  pub channels : Map Text Channel
  pub svsholds : Map Text SvsHold
  pub server_prefix : Prefix
  pub last_processed : RobustId
  pub server_creation : ℕ
  pub config : Network

abbrev pub zero_id : RobustId
zero_id = record { id = 0; reply = 0 }

abbrev pub empty_prefix : Prefix
empty_prefix = record { name = []; user = []; host = [] }

abbrev pub new_session : RobustId → Text → ℕ → ℕ → Text → Session
new_session id auth timestamp created svid = record {
  id = id;
  auth = auth;
  logged_in = false;
  nick = [];
  username = [];
  realname = [];
  channels = [];
  last_activity = timestamp;
  last_non_ping = timestamp;
  last_solved_captcha = 0;
  operator = false;
  away_msg = [];
  created = created;
  throttling_exponent = 0;
  invited_to = [];
  modes = no_modes;
  svid = svid;
  pass = [];
  server = false;
  last_client_message_id = 0;
  irc_prefix = empty_prefix;
  deleted = false;
  remote_addr = [];
}

-- NewIRCServer
unfoldable pub new_irc_server : Text → ℕ → IrcServer
new_irc_server networkname server_creation = record {
  heap = λ r. new_session zero_id [] 0 0 [];
  next_ref = 0;
  sessions = [];
  server_sessions = [];
  nicks = [];
  channels = [];
  svsholds = [];
  server_prefix = record { name = networkname; user = []; host = [] };
  last_processed = zero_id;
  server_creation = server_creation;
  config = default_config;
}

-- A write through a session pointer.
unfoldable pub set_session : ℕ → Session → (ℕ → Session) → ℕ → Session
set_session r s heap q = if nat_beq q r then s else heap q
