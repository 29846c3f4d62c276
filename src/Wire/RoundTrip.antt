-- ===== src/Wire/RoundTrip.antt =====
-- internal/robust/robust.go: a message of the log is read as it was written.
use robustirc.Base.{Bool, arith, some, ℕ, ◌≡◌, refl}
use robustirc.Robust.{Message}
use robustirc.Wire.{
  IsLosslessWire, ProtoMessage, Wire, copy_to_proto_message, from_proto_message, message_bytes,
  new_message_from_bytes, proto, proto_message, with_index,
}

from_proto_message-proto_message : (m : Message) → from_proto_message (proto_message m) ≡ m
unfolding from_proto_message proto_message
from_proto_message-proto_message m = refl

-- CopyToProtoMessage leaves nothing of the message that it overwrites.
copy_to_proto_message-proto_message :
    (m : Message) (dst : ProtoMessage) → copy_to_proto_message m dst ≡ proto_message m
unfolding copy_to_proto_message proto_message
copy_to_proto_message-proto_message m dst = refl

-- For encoders that lose nothing, in both encodings: NewMessageFromBytes of the bytes of a message
-- does not panic and returns the message, with the index as its id where the message has none; and
-- CopyToProtoMessage onto any message writes what ProtoMessage does, so that it is read alike.
pub new_message_from_bytes-message_bytes :
    (wire : Wire) (use_protobuf : Bool) (m : Message) (index : ℕ) (dst : ProtoMessage)
    → IsLosslessWire wire
    → (new_message_from_bytes wire (message_bytes wire use_protobuf m) index
        ≡ some (with_index index m))
      × (new_message_from_bytes wire
            (proto (wire.encode_message (copy_to_proto_message m dst)))
            index
          ≡ some (with_index index m))
unfolding new_message_from_bytes message_bytes
new_message_from_bytes-message_bytes wire use_protobuf m index dst h = (
  ground (arith, h.message (proto_message m), h.json_message m, from_proto_message-proto_message m),
  ground (
    arith,
    h.message (copy_to_proto_message m dst),
    copy_to_proto_message-proto_message m dst,
    from_proto_message-proto_message m,
  ),
)
