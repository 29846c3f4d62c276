-- ===== src/OutputStream.antt =====
-- internal/outputstream/outputstream.go: the batches of output messages, in the order of their
-- keys as LevelDB keeps them. The message cache is left out, and errors of the database are.
pub mod Order
pub mod Batch
pub mod Steps
pub mod Reader
use robustirc.Base.{
  List, Option, [], if◌then◌else◌, leb, ltb, nat_beq, none, some, ℕ, ◌%◌, ◌+◌, ◌-◌, ◌^◌, ◌∷◌,
}
use robustirc.Robust.{RobustId}
use robustirc.Run.{OutMsg}

abbrev pub max_uint64 : ℕ
max_uint64 = 2 ^ 64 - 1

-- messageBatch; the code never stores an empty list, and reads Messages[0]
pub record MessageBatch : Type 0 where
  pub first : OutMsg
  pub rest : List OutMsg
  pub next_id : ℕ

-- Messages[0].Id.Id
abbrev pub key_of : MessageBatch → ℕ
key_of b = b.first.id.id

pub record OutputStream : Type 0 where
  pub db : List (ℕ × MessageBatch)
  pub lastseen : MessageBatch

-- db.Put, at the place of the key
unfoldable pub put : ℕ → MessageBatch → List (ℕ × MessageBatch) → List (ℕ × MessageBatch)
put k b [] = (k, b) ∷ []
put k b ((j, c) ∷ db) =
    if ltb k j
    then (k, b) ∷ (j, c) ∷ db
    else if nat_beq k j
    then (k, b) ∷ db
    else (j, c) ∷ put k b db

-- db.Delete
unfoldable pub del : ℕ → List (ℕ × MessageBatch) → List (ℕ × MessageBatch)
del k [] = []
del k ((j, c) ∷ db) = if nat_beq j k then db else (j, c) ∷ del k db

-- db.Get
unfoldable pub find : ℕ → List (ℕ × MessageBatch) → Option MessageBatch
find k [] = none
find k ((j, c) ∷ db) = if nat_beq j k then some c else find k db

-- The first entry of the iterator over [k, ∞).
unfoldable pub first_from : ℕ → List (ℕ × MessageBatch) → Option MessageBatch
first_from k [] = none
first_from k ((j, c) ∷ db) = if leb k j then some c else first_from k db

-- The entry before the last one, i.Last() and i.Prev().
unfoldable pub before_last : List (ℕ × MessageBatch) → Option MessageBatch
before_last [] = none
before_last (x ∷ []) = none
before_last ((j, c) ∷ y ∷ []) = some c
before_last (x ∷ y ∷ z ∷ db) = before_last (y ∷ z ∷ db)

unfoldable pub last_batch : List (ℕ × MessageBatch) → Option MessageBatch
last_batch [] = none
last_batch ((j, c) ∷ []) = some c
last_batch (x ∷ y ∷ db) = last_batch (y ∷ db)

abbrev pub first_batch : MessageBatch
first_batch = record {
  first = record {
    id = record { id = 0; reply = 0 };
    body = record { prefix = none; command = []; params = [] };
    interesting_for = [];
  };
  rest = [];
  next_id = max_uint64;
}

-- reset
unfoldable pub new_output_stream : OutputStream
new_output_stream = record { db = (0, first_batch) ∷ []; lastseen = first_batch }

-- Add, of the messages msg ∷ msgs
unfoldable pub add : OutMsg → List OutMsg → OutputStream → OutputStream
add msg msgs os =
    let seen = record os.lastseen { next_id = msg.id.id } in
    let batch : MessageBatch = record { first = msg; rest = msgs; next_id = max_uint64 } in
    record { db = put msg.id.id batch (put (key_of os.lastseen) seen os.db); lastseen = batch }

-- LastSeen
unfoldable pub last_seen : OutputStream → RobustId
last_seen os = os.lastseen.first.id

-- Delete; none if the code panics, where the last message is the only one
unfoldable pub delete_input : ℕ → OutputStream → Option OutputStream
delete_input input os =
    if nat_beq input (key_of os.lastseen)
    then elim (before_last os.db) [
      | none ↦ none
      | some b ↦
          let seen = record b { next_id = max_uint64 } in
          some (record { db = del input (put (key_of b) seen os.db); lastseen = seen })
    ]
    else some (record os { db = del input os.db })

-- Where GetNext goes on to wait: at the batch given, or, for none, with a database that is empty.
pub data Next : Type 0 where
  next_batch : MessageBatch → Next
  wait_at : Option MessageBatch → Next

-- The search for anything newer than the id, else the last batch to wait at. The key is a uint64.
unfoldable pub search_next : ℕ → OutputStream → Next
search_next id os = elim (first_from ((id + 1) % 2 ^ 64) os.db) [
  | some b ↦ next_batch b
  | none ↦ wait_at (last_batch os.db)
]

-- GetNext up to the wait
unfoldable pub get_next : ℕ → OutputStream → Next
get_next id os = elim (find id os.db) [
  | none ↦ search_next id os
  | some current ↦
      if ltb current.next_id max_uint64
      then elim (find current.next_id os.db) [ some b ↦ next_batch b | none ↦ search_next id os ]
      else wait_at (some current)
]

-- One round of the loop that waits, at the key of the batch. none: the batch is gone, and the code
-- dereferences nil.
unfoldable pub poll : ℕ → OutputStream → Option (Option MessageBatch)
poll key os = elim (find key os.db) [
  | none ↦ none
  | some current ↦ some (find current.next_id os.db)
]

-- Get
unfoldable pub get : ℕ → OutputStream → Option MessageBatch
get input os = find input os.db
