-- ===== src/Config.antt =====
-- internal/config/config.go: the network configuration.
use robustirc.Base.{ℕ, ◌*◌, Bool, false, List, [], Option, none}
use robustirc.Base.Assoc.{Map}
use robustirc.Text.{Text}

pub record IrcOp : Type 0 where
  pub name : Text
  pub password : Text

pub record Service : Type 0 where
  pub password : Text

pub record Irc : Type 0 where
  pub operators : List IrcOp
  pub services : List Service

-- Durations are in nanoseconds; a nil secret is `none`.
pub record Network : Type 0 where
  pub revision : ℕ
  pub irc : Irc
  pub session_expiration : ℕ
  pub post_message_cooloff : ℕ
  pub trusted_bridges : Map Text Text
  pub captcha_url : Text
  pub captcha_hmac_secret : Option Text
  pub captcha_required_for_login : Bool
  pub max_sessions : ℕ
  pub max_channels : ℕ
  pub banned : Map Text Text
  pub whitelisted_origins : Map Text Bool

abbrev pub millisecond : ℕ
millisecond = 1_000_000

abbrev pub second : ℕ
second = 1000 * millisecond

abbrev pub minute : ℕ
minute = 60 * second

abbrev pub default_config : Network
default_config = record {
  revision = 0;
  irc = record { operators = []; services = [] };
  session_expiration = 10 * minute;
  post_message_cooloff = 500 * millisecond;
  trusted_bridges = [];
  captcha_url = [];
  captcha_hmac_secret = none;
  captcha_required_for_login = false;
  max_sessions = 0;
  max_channels = 0;
  banned = [];
  whitelisted_origins = [];
}
