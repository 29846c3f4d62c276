-- ===== src/Snapshot.antt =====
-- internal/proto/snapshot.proto and internal/ircserver/serialize.go: the state of the IRC server as
-- a protobuf message. A missing submessage is not told apart from one with zero fields, except for
-- the timestamps.
pub mod Encode
pub mod Decode
pub mod Copy
pub mod Fields
pub mod Channels
pub mod Sessions
pub mod RoundTrip
use robustirc.Base.{Bool, List, Option, ℕ}
use robustirc.Base.Assoc.{Map}
use robustirc.Robust.{RobustId}
use robustirc.Text.{Text}

-- The generated Timestamp; `unix_nano` is an int64 in two's complement.
pub record Timestamp : Type 0 where
  pub unix_nano : ℕ
  pub is_zero : Bool

-- The enumeration Bool of snapshot.proto, which was added later than the sessions.
pub data ProtoBool : Type 0 where
  unset is_false is_true : ProtoBool

pub record SnapshotPrefix : Type 0 where
  pub name : Text
  pub user : Text
  pub host : Text

pub record SnapshotSession : Type 0 where
  pub id : RobustId
  pub auth : Text
  pub logged_in : ProtoBool
  pub nick : Text
  pub username : Text
  pub realname : Text
  pub channels : List Text
  pub last_activity : Option Timestamp
  pub last_non_ping : Option Timestamp
  pub last_solved_captcha : Option Timestamp
  pub operator : Bool
  pub away_msg : Text
  pub created : ℕ
  pub throttling_exponent : ℕ
  pub invited_to : List Text
  pub modes : List Text
  pub svid : Text
  pub pass : Text
  pub server : Bool
  pub last_client_message_id : ℕ
  pub irc_prefix : SnapshotPrefix
  pub remote_addr : Text

pub record SnapshotBan : Type 0 where
  pub pattern : Text
  pub regexp : Text

pub record SnapshotChannel : Type 0 where
  pub name : Text
  pub topic_nick : Text
  pub topic_time : Option Timestamp
  pub topic : Text
  pub nicks : Map Text (List Text)
  pub modes : List Text
  pub bans : List SnapshotBan

pub record SnapshotHold : Type 0 where
  pub added : Option Timestamp
  pub duration : Text
  pub reason : Text

pub record SnapshotOperator : Type 0 where
  pub name : Text
  pub password : Text

pub record SnapshotConfig : Type 0 where
  pub revision : ℕ
  pub operators : List SnapshotOperator
  pub services : List Text
  pub session_expiration : Text
  pub post_message_cooloff : Text
  pub trusted_bridges : Map Text Text
  pub captcha_url : Text
  pub captcha_hmac_secret : Text
  pub captcha_required_for_login : Bool
  pub max_sessions : ℕ
  pub max_channels : ℕ
  pub banned : Map Text Text

pub record ServerSnapshot : Type 0 where
  pub sessions : List SnapshotSession
  pub channels : List SnapshotChannel
  pub svsholds : Map Text SnapshotHold
  pub last_processed : RobustId
  pub config : SnapshotConfig
  pub last_included_index : ℕ

-- What the code calls of other packages: proto.Marshal and proto.Unmarshal of a snapshot, with the
-- type of what is written, time.Duration.String, and hex.EncodeToString and hex.DecodeString; none
-- is an error.
pub record Encoding : Type 1 where
  pub Bytes : Type 0
  pub encode : ServerSnapshot → Bytes
  pub decode : Bytes → Option ServerSnapshot
  pub duration_string : ℕ → Text
  pub hex_encode : Text → Text
  pub hex_decode : Text → Option Text
