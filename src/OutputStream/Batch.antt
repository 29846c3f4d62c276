-- ===== src/OutputStream/Batch.antt =====
-- internal/outputstream/serialization.go: the bytes of a batch, as they stand in the database.
pub mod RoundTrip
use robustirc.Base.{
  List, Option, [], add_elem, drop, if◌then◌else◌, leb, length, ltb, nat_eq, none, some, suc, take,
  zero, ℕ, ◌%◌, ◌*◌, ◌++◌, ◌+◌, ◌-◌, ◌/◌, ◌^◌, ◌∷◌,
}
use robustirc.Robust.{RobustId}
use robustirc.Text.{Text}

-- Message; `interesting_for` holds the keys of the map
pub record StoredMessage : Type 0 where
  pub id : RobustId
  pub payload : Text
  pub interesting_for : List ℕ

-- messageBatch
pub record StoredBatch : Type 0 where
  pub messages : List StoredMessage
  pub next_id : ℕ

-- The bytes of a number, the lowest first.
unfoldable pub little_endian : ℕ → ℕ → List ℕ
little_endian zero v = []
little_endian (suc n) v = v % 256 ∷ little_endian n (v / 256)

-- The number of some bytes.
unfoldable pub from_little_endian : List ℕ → ℕ
from_little_endian [] = 0
from_little_endian (b ∷ bs) = b + 256 * from_little_endian bs

-- The buffer of marshal up to the position n, and how many bytes it still has after it.
pub record Buffer : Type 0 where
  pub written : List ℕ
  pub room : ℕ

-- binary.LittleEndian.PutUint64(buffer[n:], v) and n += 8; none: the buffer is too short.
unfoldable pub put_uint64 : ℕ → Buffer → Option Buffer
put_uint64 v b =
    if leb 8 b.room
    then some (record { written = b.written ++ little_endian 8 v; room = b.room - 8 })
    else none

-- copy(buffer[n:], data) and n += len(data); beyond the end of the buffer the next slice panics.
unfoldable pub put_bytes : Text → Buffer → Option Buffer
put_bytes bytes b =
    if leb (length bytes) b.room
    then some (record { written = b.written ++ bytes; room = b.room - length bytes })
    else none

infixl 5 ◌>>=◌
abbrev pub ◌>>=◌ : {A B : Type 0} → Option A → (A → Option B) → Option B
none >>= f = none
some a >>= f = f a

unfoldable pub put_sessions : List ℕ → Buffer → Option Buffer
put_sessions [] b = some b
put_sessions (session ∷ rest) b = put_uint64 session b >>= put_sessions rest

unfoldable pub put_message : StoredMessage → Buffer → Option Buffer
put_message msg b = do
  b₁ ← put_uint64 msg.id.id b
  b₂ ← put_uint64 msg.id.reply b₁
  b₃ ← put_uint64 (length msg.payload) b₂
  b₄ ← put_bytes msg.payload b₃
  b₅ ← put_uint64 (length msg.interesting_for) b₄
  put_sessions msg.interesting_for b₅

unfoldable pub put_messages : List StoredMessage → Buffer → Option Buffer
put_messages [] b = some b
put_messages (msg ∷ rest) b = put_message msg b >>= put_messages rest

-- bufLen
unfoldable pub message_size : StoredMessage → ℕ
message_size msg = 2 * 8 + 8 + length msg.payload + 8 + 8 * length msg.interesting_for

unfoldable pub messages_size : List StoredMessage → ℕ
messages_size [] = 0
messages_size (msg ∷ rest) = message_size msg + messages_size rest

unfoldable pub buffer_size : StoredBatch → ℕ
buffer_size m = 8 + 8 + messages_size m.messages

abbrev pub zeros : ℕ → List ℕ
zeros zero = []
zeros (suc n) = 0 ∷ zeros n

-- marshal: the whole buffer; none if it panics
unfoldable pub marshal_batch : StoredBatch → Option (List ℕ)
marshal_batch m = do
  b₁ ← put_uint64 m.next_id (record { written = []; room = buffer_size m })
  b₂ ← put_uint64 (length m.messages) b₁
  b₃ ← put_messages m.messages b₂
  some (b₃.written ++ zeros b₃.room)

-- A slice of the first bytes, and what follows; none: out of range.
unfoldable pub take_bytes : ℕ → List ℕ → Option (List ℕ × List ℕ)
take_bytes zero buffer = some ([], buffer)
take_bytes (suc n) [] = none
take_bytes (suc n) (b ∷ buffer) = take_bytes n buffer >>= λ (bs, rest). some (b ∷ bs, rest)

-- binary.LittleEndian.Uint64(buffer[n:]) and n += 8
unfoldable pub get_uint64 : List ℕ → Option (ℕ × List ℕ)
get_uint64 buffer = take_bytes 8 buffer >>= λ (bs, rest). some (from_little_endian bs, rest)

unfoldable pub get_sessions : ℕ → List ℕ → List ℕ → Option (List ℕ × List ℕ)
get_sessions zero seen buffer = some (seen, buffer)
get_sessions (suc j) seen buffer =
    get_uint64 buffer >>= λ (session, rest). get_sessions j (add_elem session seen) rest

unfoldable pub get_message : List ℕ → Option (StoredMessage × List ℕ)
get_message buffer = do
  (id, buffer₁) ← get_uint64 buffer
  (reply, buffer₂) ← get_uint64 buffer₁
  (len_data, buffer₃) ← get_uint64 buffer₂
  (payload, buffer₄) ← take_bytes len_data buffer₃
  (len_interesting, buffer₅) ← get_uint64 buffer₄
  (interesting_for, rest) ← get_sessions len_interesting [] buffer₅
  some (
    record {
      id = record { id = id; reply = reply };
      payload = payload;
      interesting_for = interesting_for;
    },
    rest,
  )

unfoldable pub get_messages : ℕ → List ℕ → Option (List StoredMessage × List ℕ)
get_messages zero buffer = some ([], buffer)
get_messages (suc i) buffer = do
  (msg, rest) ← get_message buffer
  (msgs, rest') ← get_messages i rest
  some (msg ∷ msgs, rest')

-- unmarshalMessageBatch; none if it panics. What follows the last message is not read.
unfoldable pub unmarshal_batch : List ℕ → Option StoredBatch
unmarshal_batch buffer = do
  (next_id, buffer₁) ← get_uint64 buffer
  (count, buffer₂) ← get_uint64 buffer₁
  (messages, rest) ← get_messages count buffer₂
  some (record { messages = messages; next_id = next_id })
