-- ===== src/RaftStore.antt =====
-- internal/raftstore/leveldb.go: raft's logs and settings in a LevelDB database. Errors of the
-- database are left out; keys of logs have eight bytes, so that reading one does not panic.
pub mod Order
pub mod Ranges
pub mod Indexes
pub mod Bounds
pub mod Bulk
pub mod Stored
pub mod Logs
pub mod Stable
use robustirc.Base.{
  Bool, List, Option, [], if◌then◌else◌, keep, ltb, nat_beq, none, not, some, suc, take, zero, ℕ,
  ◌%◌, ◌&&◌, ◌*◌, ◌++◌, ◌+◌, ◌/◌, ◌^◌, ◌∷◌, true, false,
}
use robustirc.Base.Assoc.{Map, keys}
use robustirc.Text.{Text, has_prefix, text}
use robustirc.Wire.{EntryData, LogValue, RaftLog, Wire, json, log_from_bytes, proto}

-- The operations of a LevelDB database that the code calls, and the entries in the order of an
-- iterator.
pub record LevelDb (V : Type 0) : Type 1 where
  pub Db : Type 0
  pub empty : Db
  pub get : Text → Db → Option V
  pub put : Text → V → Db → Db
  pub delete : Text → Db → Db
  pub entries : Db → Map Text V

-- binary.BigEndian.PutUint64, for n bytes
unfoldable pub big_endian : ℕ → ℕ → Text
big_endian zero v = []
big_endian (suc n) v = big_endian n (v / 256) ++ v % 256 ∷ []

unfoldable pub from_digits : ℕ → Text → ℕ
from_digits acc [] = acc
from_digits acc (b ∷ bs) = from_digits (acc * 256 + b) bs

-- binary.BigEndian.Uint64
unfoldable pub from_big_endian : Text → ℕ
from_big_endian bytes = from_digits 0 (take 8 bytes)

-- The order of keys, bytes.Compare(a, b) < 0
unfoldable pub key_ltb : Text → Text → Bool
key_ltb [] [] = false
key_ltb [] (d ∷ t) = true
key_ltb (c ∷ s) [] = false
key_ltb (c ∷ s) (d ∷ t) = if nat_beq c d then key_ltb s t else ltb c d

abbrev pub stable_prefix : Text
stable_prefix = text "stablestore-"

abbrev pub is_stable : Text → Bool
is_stable key = has_prefix key stable_prefix

-- What stands in the database: the bytes of a log entry, or those of a setting.
pub data StoreValue (W : Type 0) : Type 0 where
  log : W → StoreValue W
  raw : Text → StoreValue W

-- GetLog: the log, raft.ErrLogNotFound, or an error of the decoder
pub data Got (L : Type 0) : Type 0 where
  found : L → Got L
  log_not_found undecodable : Got L

abbrev pub log_key : ℕ → Text
log_key index = big_endian 8 index

-- The first key, and the last one, that do not have the prefix.
unfoldable pub first_plain {ℓ} : {V : Type ℓ} → Map Text V → Option Text
first_plain [] = none
first_plain ((k, v) ∷ m) = let rest = first_plain m in if is_stable k then rest else some k

unfoldable pub last_plain {ℓ} : {V : Type ℓ} → Map Text V → Option Text
last_plain [] = none
last_plain ((k, v) ∷ m) = elim (last_plain m) [
  | some j ↦ some j
  | none ↦ if is_stable k then none else some k
]

abbrev pub index_or_zero : Option Text → ℕ
index_or_zero none = 0
index_or_zero (some key) = from_big_endian key

-- The range of an iterator.
abbrev pub in_range : ℕ → ℕ → Text → Bool
in_range start limit key = not (key_ltb key (log_key start)) && key_ltb key (log_key limit)

-- A batch that deletes keys.
unfoldable pub delete_keys : {V : Type 0} (ldb : LevelDb V) → List Text → ldb.Db → ldb.Db
delete_keys ldb [] db = db
delete_keys ldb (k ∷ ks) db = delete_keys ldb ks (ldb.delete k db)

module _ (wire : Wire) (ldb : LevelDb (StoreValue (LogValue wire))) where
  abbrev pub Entry : Type 0
  Entry = StoreValue (LogValue wire)

  -- FirstIndex
  unfoldable pub first_index : ldb.Db → ℕ
  first_index db = index_or_zero (first_plain (ldb.entries db))

  -- LastIndex
  unfoldable pub last_index : ldb.Db → ℕ
  last_index db = index_or_zero (last_plain (ldb.entries db))

  -- GetBulkIterator: what the iterator visits
  unfoldable pub get_bulk_iterator : ℕ → ℕ → ldb.Db → Map Text Entry
  get_bulk_iterator start limit db = keep (λ (k, v). in_range start limit k) (ldb.entries db)

  abbrev pub read_log : Option (RaftLog (EntryData wire)) → Got (RaftLog (EntryData wire))
  read_log none = undecodable
  read_log (some l) = found l

  -- GetLog
  unfoldable pub get_log : ℕ → ldb.Db → Got (RaftLog (EntryData wire))
  get_log index db = elim (ldb.get (log_key index) db) [
    | none ↦ log_not_found
    | some (raw bytes) ↦ undecodable
    | some (log value) ↦ read_log (log_from_bytes wire value)
  ]

  -- The value of an entry, in both encodings of StoreLogs.
  unfoldable pub log_value : Bool → RaftLog (EntryData wire) → LogValue wire
  log_value use_protobuf entry =
      if use_protobuf then proto (wire.encode_log entry) else json (wire.encode_json_log entry)

  -- StoreLogs; the batch is written as a whole
  unfoldable pub store_logs : Bool → List (RaftLog (EntryData wire)) → ldb.Db → ldb.Db
  store_logs use_protobuf [] db = db
  store_logs use_protobuf (entry ∷ rest) db =
      store_logs use_protobuf rest
        (ldb.put (log_key entry.index) (log (log_value use_protobuf entry)) db)

  -- StoreLog
  unfoldable pub store_log : Bool → RaftLog (EntryData wire) → ldb.Db → ldb.Db
  store_log use_protobuf entry db = store_logs use_protobuf (entry ∷ []) db

  -- StoreLogProto
  unfoldable pub store_log_proto : RaftLog (EntryData wire) → ldb.Db → ldb.Db
  store_log_proto msg db = ldb.put (log_key msg.index) (log (proto (wire.encode_log msg))) db

  -- DeleteRange; max + 1 wraps around
  unfoldable pub delete_range : ℕ → ℕ → ldb.Db → ldb.Db
  delete_range min max db =
      delete_keys ldb (keys (get_bulk_iterator min ((max + 1) % 2 ^ 64) db)) db

  -- Set
  unfoldable pub set_key : Text → Text → ldb.Db → ldb.Db
  set_key key val db = ldb.put (stable_prefix ++ key) (raw val) db

  abbrev pub raw_of : Option Entry → Text
  raw_of (some (raw bytes)) = bytes
  raw_of _ = []

  -- Get; nil for a missing key. No log stands under a key with the prefix.
  unfoldable pub get_key : Text → ldb.Db → Text
  get_key key db = raw_of (ldb.get (stable_prefix ++ key) db)

  -- SetUint64
  unfoldable pub set_uint64 : Text → ℕ → ldb.Db → ldb.Db
  set_uint64 key val db = ldb.put (stable_prefix ++ key) (raw (big_endian 8 val)) db

  -- GetUint64; 0 for a missing key
  unfoldable pub get_uint64 : Text → ldb.Db → ℕ
  get_uint64 key db = elim (ldb.get (stable_prefix ++ key) db) [
    | none ↦ 0
    | some v ↦ from_big_endian (raw_of (some v))
  ]
