-- ===== src/OutputStream/Batch/RoundTrip.antt =====
-- internal/outputstream/serialization.go: unmarshalMessageBatch after marshal.
use robustirc.Base.{
  All, List, Option, [], add_elem, ap, arith, length, length-append, nat_eq, refl, some, suc, sym,
  zero, ℕ, ◌*◌, ◌++◌, ◌+◌, ◌/◌, ◌<◌, ◌^◌, ◌∙◌, ◌∷◌, ◌≡◌,
}
use robustirc.Base.Distinct.{Apart, Apart-append, Apart-nil, Distinct}
use robustirc.OutputStream.Batch.{
  Buffer, StoredBatch, StoredMessage, buffer_size, from_little_endian, get_message, get_messages,
  get_sessions, get_uint64, little_endian, marshal_batch, message_size, messages_size, put_bytes,
  put_message, put_messages, put_sessions, put_uint64, take_bytes, unmarshal_batch, ◌>>=◌,
}
use robustirc.Text.{Text}
use mathlib.Core.List.{append_assoc, append-nil}

length-little_endian : (n v : ℕ) → length (little_endian n v) ≡ n
unfolding little_endian
length-little_endian zero v = refl
length-little_endian (suc n) v = ap suc (length-little_endian n (v / 256))

from_little_endian-little_endian :
    (n v : ℕ) → v < 256 ^ n → from_little_endian (little_endian n v) ≡ v
unfolding from_little_endian little_endian
from_little_endian-little_endian zero v h = omega arith
from_little_endian-little_endian (suc n) v h =
    rw (from_little_endian-little_endian n (v / 256) (grind arith)) (omega arith)

take_bytes-append : (bs rest : List ℕ) → take_bytes (length bs) (bs ++ rest) ≡ some (bs, rest)
unfolding take_bytes
take_bytes-append [] rest = refl
take_bytes-append (b ∷ bs) rest = rw (take_bytes-append bs rest) refl

get_uint64-little_endian :
    (v : ℕ) → v < 2 ^ 64 → (rest : List ℕ) → get_uint64 (little_endian 8 v ++ rest) ≡ some (v, rest)
unfolding get_uint64
get_uint64-little_endian v h rest =
    rw
      (
        sym (ap (λ n. take_bytes n (little_endian 8 v ++ rest)) (length-little_endian 8 v)),
        take_bytes-append (little_endian 8 v) rest,
      )
      (rw (from_little_endian-little_endian 8 v h) refl)

-- What marshal writes, without the buffer.
abbrev session_bytes : List ℕ → List ℕ
session_bytes [] = []
session_bytes (s ∷ ss) = little_endian 8 s ++ session_bytes ss

abbrev message_bytes : StoredMessage → List ℕ
message_bytes msg =
    little_endian 8 msg.id.id
    ++ (little_endian 8 msg.id.reply
        ++ (little_endian 8 (length msg.payload)
            ++ (msg.payload
                ++ (little_endian 8 (length msg.interesting_for)
                    ++ session_bytes msg.interesting_for))))

abbrev messages_bytes : List StoredMessage → List ℕ
messages_bytes [] = []
messages_bytes (m ∷ ms) = message_bytes m ++ messages_bytes ms

abbrev batch_bytes : StoredBatch → List ℕ
batch_bytes m =
    little_endian 8 m.next_id ++ (little_endian 8 (length m.messages) ++ messages_bytes m.messages)

-- An operation writes these bytes wherever there is room for them.
record Writes (put : Buffer → Option Buffer) (bytes : List ℕ) : Type 0 where
  run :
      (w : List ℕ) (r : ℕ)
      → put (record { written = w; room = length bytes + r })
        ≡ some (record { written = w ++ bytes; room = r })

Writes-uint64 : (v : ℕ) → Writes (put_uint64 v) (little_endian 8 v)
unfolding put_uint64
Writes-uint64 v = record { run = λ w r. rw (length-little_endian 8 v) (ground arith) }

Writes-bytes : (bytes : Text) → Writes (put_bytes bytes) bytes
unfolding put_bytes
Writes-bytes bytes = record { run = λ w r. ground arith }

Writes-some : Writes some []
Writes-some = record { run = λ w r. rw (append-nil w) (ground arith) }

Writes-bind :
    {p q : Buffer → Option Buffer} {xs ys : List ℕ}
    → Writes p xs
    → Writes q ys
    → Writes (λ b. p b >>= q) (xs ++ ys)
Writes-bind {p} {q} {xs} {ys} hp hq = record {
  run = λ w r.
      let room : length (xs ++ ys) + r ≡ length xs + (length ys + r) =
        omega (arith, length-append xs ys) in
      rw (room, hp.run w (length ys + r), hq.run (w ++ xs) r, append_assoc w xs ys) refl;
}

Writes-sessions : (ss : List ℕ) → Writes (put_sessions ss) (session_bytes ss)
unfolding put_sessions
Writes-sessions [] = Writes-some
Writes-sessions (s ∷ ss) = Writes-bind (Writes-uint64 s) (Writes-sessions ss)

Writes-message : (m : StoredMessage) → Writes (put_message m) (message_bytes m)
unfolding put_message
Writes-message m = Writes-bind (Writes-uint64 m.id.id) (
    Writes-bind (Writes-uint64 m.id.reply) (
      Writes-bind (Writes-uint64 (length m.payload)) (
        Writes-bind (Writes-bytes m.payload) (
          Writes-bind (Writes-uint64 (length m.interesting_for))
            (Writes-sessions m.interesting_for)))))

Writes-messages : (ms : List StoredMessage) → Writes (put_messages ms) (messages_bytes ms)
unfolding put_messages
Writes-messages [] = Writes-some
Writes-messages (m ∷ ms) = Writes-bind (Writes-message m) (Writes-messages ms)

length-session_bytes : (ss : List ℕ) → length (session_bytes ss) ≡ 8 * length ss
length-session_bytes [] = refl
length-session_bytes (s ∷ ss) = omega (
  arith,
  length-append (little_endian 8 s) (session_bytes ss),
  length-little_endian 8 s,
  length-session_bytes ss,
)

length-message_bytes : (m : StoredMessage) → length (message_bytes m) ≡ message_size m
unfolding message_size
length-message_bytes m =
    simp (length-append, length-little_endian, length-session_bytes) (omega arith)

length-messages_bytes : (ms : List StoredMessage) → length (messages_bytes ms) ≡ messages_size ms
unfolding messages_size
length-messages_bytes [] = refl
length-messages_bytes (m ∷ ms) =
    length-append (message_bytes m) (messages_bytes ms)
    ∙ rw (length-message_bytes m, length-messages_bytes ms) refl

length-batch_bytes : (m : StoredBatch) → length (batch_bytes m) ≡ buffer_size m
unfolding buffer_size
length-batch_bytes m =
    simp (length-append, length-little_endian, length-messages_bytes) (omega arith)

Writes-batch :
    (m : StoredBatch)
    → Writes
        (λ b.
          put_uint64 m.next_id b
          >>= (λ b₁. put_uint64 (length m.messages) b₁ >>= put_messages m.messages))
        (batch_bytes m)
Writes-batch m =
    Writes-bind (Writes-uint64 m.next_id)
      (Writes-bind (Writes-uint64 (length m.messages)) (Writes-messages m.messages))

-- marshal fills its buffer to the last byte.
marshal_batch-batch_bytes : (m : StoredBatch) → marshal_batch m ≡ some (batch_bytes m)
unfolding marshal_batch
marshal_batch-batch_bytes m =
    let count = little_endian 8 (length m.messages) in
    let next = little_endian 8 m.next_id in
    let size : buffer_size m
        ≡ length next + (length count + (length (messages_bytes m.messages) + 0)) =
      omega (
        arith,
        sym (length-batch_bytes m),
        length-append next (count ++ messages_bytes m.messages),
        length-append count (messages_bytes m.messages),
      ) in
    rw
      (
        size,
        (Writes-uint64 m.next_id).run [] _,
        (Writes-uint64 (length m.messages)).run next _,
        (Writes-messages m.messages).run (next ++ count) 0,
      )
      (rw (append-nil, append_assoc) refl)

-- What fits in the fields of a message: a uint64 each, and no session twice.
abbrev pub IsUint64 : ℕ → Type 0
IsUint64 v = v < 2 ^ 64

abbrev pub IsStoredMessage : StoredMessage → Type 0
IsStoredMessage m =
    IsUint64 m.id.id
    × IsUint64 m.id.reply
    × IsUint64 (length m.payload)
    × IsUint64 (length m.interesting_for)
    × All IsUint64 m.interesting_for
    × Distinct m.interesting_for

get_sessions-append :
    (ss seen rest : List ℕ)
    → All IsUint64 ss
    → Distinct ss
    → Apart ss seen
    → get_sessions (length ss) seen (session_bytes ss ++ rest) ≡ some (seen ++ ss, rest)
unfolding get_sessions add_elem
get_sessions-append [] seen rest fit distinct new = rw (append-nil seen) refl
get_sessions-append (s ∷ ss) seen rest (fits, fit) (once, distinct) (new, apart) =
    rw
      (
        append_assoc (little_endian 8 s) (session_bytes ss) rest,
        get_uint64-little_endian s fits,
        new,
        get_sessions-append ss (seen ++ s ∷ []) rest fit distinct
            (Apart-append s ss seen once apart),
      )
      (rw (append_assoc seen (s ∷ []) ss) refl)

get_message-append :
    (m : StoredMessage) (rest : List ℕ)
    → IsStoredMessage m
    → get_message (message_bytes m ++ rest) ≡ some (m, rest)
unfolding get_message
get_message-append m rest (id, reply, payload, interesting, fit, distinct) = simp (
  append_assoc,
  get_uint64-little_endian m.id.id id,
  get_uint64-little_endian m.id.reply reply,
  get_uint64-little_endian (length m.payload) payload,
  take_bytes-append m.payload,
  get_uint64-little_endian (length m.interesting_for) interesting,
  get_sessions-append m.interesting_for [] rest fit distinct (Apart-nil m.interesting_for),
)

get_messages-append :
    (ms : List StoredMessage) (rest : List ℕ)
    → All IsStoredMessage ms
    → get_messages (length ms) (messages_bytes ms ++ rest) ≡ some (ms, rest)
unfolding get_messages
get_messages-append [] rest fit = refl
get_messages-append (m ∷ ms) rest (fits, fit) =
    rw
      (
        append_assoc (message_bytes m) (messages_bytes ms) rest,
        get_message-append m (messages_bytes ms ++ rest) fits,
        get_messages-append ms rest fit,
      )
      refl

pub record IsStoredBatch (m : StoredBatch) : Type 0 where
  pub next_fits : IsUint64 m.next_id
  pub count_fits : IsUint64 (length m.messages)
  pub each : All IsStoredMessage m.messages

-- For every batch whose numbers and lengths are uint64s, and whose messages name no session twice:
-- marshal does not run over the buffer whose length it computed, the bytes are as many as that
-- length, and unmarshalMessageBatch of them, with whatever follows, does not panic and returns the
-- batch.
pub unmarshal-marshal_batch :
    (m : StoredBatch) (rest : List ℕ)
    → IsStoredBatch m
    → (bytes : List ℕ) × (marshal_batch m ≡ some bytes)
      × (length bytes ≡ buffer_size m)
      × (unmarshal_batch (bytes ++ rest) ≡ some m)
unfolding unmarshal_batch
unmarshal-marshal_batch m rest h = (
  batch_bytes m,
  marshal_batch-batch_bytes m,
  length-batch_bytes m,
  simp (
    append_assoc,
    get_uint64-little_endian m.next_id h.next_fits,
    get_uint64-little_endian (length m.messages) h.count_fits,
    get_messages-append m.messages rest h.each,
  ),
)
