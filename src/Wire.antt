-- ===== src/Wire.antt =====
-- internal/robust/robust.go, internal/raftlog/raftlog.go, internal/proto/types.proto: messages of
-- the log and log entries, as they are written. What is written by protobuf has the byte 'p' in
-- front, which no JSON text begins with.
pub mod RoundTrip
use robustirc.Base.{Bool, List, Option, ◌≡◌, if◌then◌else◌, nat_beq, none, some, ℕ}
use robustirc.Robust.{Message, MessageType, RobustId}
use robustirc.Text.{Text}

-- The generated RobustMessage. Its enumeration of types has the numbers of robust.Type.
pub record ProtoMessage : Type 0 where
  pub id : RobustId
  pub session : RobustId
  pub type : MessageType
  pub payload : Text
  pub unix_nano : ℕ
  pub servers : List Text
  pub current_master : Text
  pub client_message_id : ℕ
  pub revision : ℕ
  pub remote_addr : Text

-- raft.LogType
pub data LogType : Type 0 where
  command noop add_peer remove_peer barrier : LogType

-- Bytes that begin with 'p', and what follows it; or any others.
pub data Stored (P J : Type 0) : Type 0 where
  proto : P → Stored P J
  json : J → Stored P J

-- raft.Log, and the generated RaftLog, which has the same fields.
pub record RaftLog (D : Type 0) : Type 0 where
  pub index : ℕ
  pub term : ℕ
  pub type : LogType
  pub payload : D
  pub extensions : Text

-- proto.Marshal and json.Marshal of messages and of log entries, with the types of what they write,
-- and their inverses; none is an error.
pub record Wire : Type 1 where
  pub MessageBytes : Type 0
  pub MessageJson : Type 0
  pub encode_message : ProtoMessage → MessageBytes
  pub decode_message : MessageBytes → Option ProtoMessage
  pub encode_json_message : Message → MessageJson
  pub decode_json_message : MessageJson → Option Message
  pub LogBytes : Type 0
  pub LogJson : Type 0
  pub encode_log : RaftLog (Stored MessageBytes MessageJson) → LogBytes
  pub decode_log : LogBytes → Option (RaftLog (Stored MessageBytes MessageJson))
  pub encode_json_log : RaftLog (Stored MessageBytes MessageJson) → LogJson
  pub decode_json_log : LogJson → Option (RaftLog (Stored MessageBytes MessageJson))

-- Message.ProtoMessage
unfoldable pub proto_message : Message → ProtoMessage
proto_message m = record {
  id = record { id = m.id.id; reply = m.id.reply };
  session = record { id = m.session.id; reply = m.session.reply };
  type = m.type;
  payload = m.payload;
  unix_nano = m.unix_nano;
  servers = m.servers;
  current_master = m.current_master;
  client_message_id = m.client_message_id;
  revision = m.revision;
  remote_addr = m.remote_addr;
}

-- Message.CopyToProtoMessage
unfoldable pub copy_to_proto_message : Message → ProtoMessage → ProtoMessage
copy_to_proto_message m dst = record dst {
  id = record dst.id { id = m.id.id; reply = m.id.reply };
  session = record dst.session { id = m.session.id; reply = m.session.reply };
  type = m.type;
  payload = m.payload;
  unix_nano = m.unix_nano;
  servers = m.servers;
  current_master = m.current_master;
  client_message_id = m.client_message_id;
  revision = m.revision;
  remote_addr = m.remote_addr;
}

-- The fields that NewMessageFromBytes copies.
unfoldable pub from_proto_message : ProtoMessage → Message
from_proto_message p = record {
  id = record { id = p.id.id; reply = p.id.reply };
  session = record { id = p.session.id; reply = p.session.reply };
  type = p.type;
  payload = p.payload;
  unix_nano = p.unix_nano;
  servers = p.servers;
  current_master = p.current_master;
  client_message_id = p.client_message_id;
  revision = p.revision;
  remote_addr = p.remote_addr;
}

-- if msg.Id.Id == 0 { msg.Id.Id = index }
unfoldable pub with_index : ℕ → Message → Message
with_index index msg =
    if nat_beq msg.id.id 0 then record msg { id = record msg.id { id = index } } else msg

module _ (wire : Wire) where
  -- The data of a log entry.
  abbrev pub EntryData : Type 0
  EntryData = Stored wire.MessageBytes wire.MessageJson

  -- The value of a log entry in a store.
  abbrev pub LogValue : Type 0
  LogValue = Stored wire.LogBytes wire.LogJson

  -- The bytes that applyMessageWait hands to raft.
  unfoldable pub message_bytes : (use_protobuf : Bool) → Message → EntryData
  message_bytes use_protobuf msg =
      if use_protobuf
      then proto (wire.encode_message (proto_message msg))
      else json (wire.encode_json_message msg)

  -- NewMessageFromBytes; none where it panics
  unfoldable pub new_message_from_bytes : EntryData → ℕ → Option Message
  new_message_from_bytes (proto bytes) index = elim (wire.decode_message bytes) [
    | none ↦ none
    | some p ↦ some (with_index index (from_proto_message p))
  ]
  new_message_from_bytes (json bytes) index = elim (wire.decode_json_message bytes) [
    | none ↦ none
    | some msg ↦ some (with_index index msg)
  ]

  -- raftlog.FromBytes; none for an error. An empty value, which nothing writes, is left out.
  unfoldable pub log_from_bytes : LogValue → Option (RaftLog EntryData)
  log_from_bytes (proto bytes) = wire.decode_log bytes
  log_from_bytes (json bytes) = wire.decode_json_log bytes

  -- What is assumed of the encoders.
  pub record IsLosslessWire : Type 0 where
    pub message : (p : ProtoMessage) → wire.decode_message (wire.encode_message p) ≡ some p
    pub json_message :
        (m : Message) → wire.decode_json_message (wire.encode_json_message m) ≡ some m
    pub log : (l : RaftLog EntryData) → wire.decode_log (wire.encode_log l) ≡ some l
    pub json_log : (l : RaftLog EntryData) → wire.decode_json_log (wire.encode_json_log l) ≡ some l
