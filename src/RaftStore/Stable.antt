-- ===== src/RaftStore/Stable.antt =====
-- internal/raftstore/leveldb.go: what GetLog, Get and GetUint64 read.
use robustirc.Base.{
  ==_refl, All, Bool, Bool-cases, List, Option, [], ap, arith, false, if◌then◌else◌, inl, inr, keep,
  nat_beq, nat_eq, none, not, option_case, refl, some, sym, true, ℕ, ◌%◌, ◌++◌, ◌+◌, ◌<◌, ◌==◌, ◌^◌,
  ◌∙◌, ◌∷◌, ◌≡◌,
}
use robustirc.Base.Assoc.{Map, lookup}
use robustirc.RaftStore.{
  LevelDb, StoreValue, delete_range, found, get_bulk_iterator, get_key, get_log, get_uint64,
  in_range, is_stable, key_ltb, log, log_key, log_value, raw, set_key, set_uint64, stable_prefix,
  store_logs,
}
use robustirc.RaftStore.Indexes.{log_key-is_stable, stable-is_stable}
use robustirc.RaftStore.Order.{from_big_endian-log_key, key_ltb-stable, stable_bound}
use robustirc.RaftStore.Ranges.{IsLevelDb, entries-delete_keep}
use robustirc.Text.{Text, text, text_beq, text_beq_iff, text_eq}
use robustirc.Wire.{EntryData, IsLosslessWire, LogValue, RaftLog, Wire, log_from_bytes}

pub log_key-beq : (i j : ℕ) → i < 2 ^ 64 → j < 2 ^ 64 → (log_key i == log_key j) ≡ nat_beq i j
log_key-beq i j hi hj = ground (
  arith,
  text_beq_iff (log_key i) (log_key j),
  from_big_endian-log_key i hi,
  from_big_endian-log_key j hj,
)

pub log_key-not_stable : (i : ℕ) (key : Text) → (log_key i == (stable_prefix ++ key)) ≡ false
log_key-not_stable i key = elim (Bool-cases (log_key i == (stable_prefix ++ key))) [
  | inl e ↦
      let same = ap is_stable ((text_beq_iff (log_key i) (stable_prefix ++ key)).0 e) in
      absurd (cc (same, log_key-is_stable i, stable-is_stable key))
  | inr e ↦ e
]

stable-beq : (k j : Text) → ((stable_prefix ++ k) == (stable_prefix ++ j)) ≡ (k == j)
unfolding text_beq text
stable-beq k j = refl

lookup-keep :
    {V : Type 0} (p : Text → Bool) (k : Text) (m : Map Text V)
    → p k ≡ true
    → lookup k (keep (λ (j, v). p j) m) ≡ lookup k m
unfolding lookup
lookup-keep p k [] h = refl
lookup-keep p k ((j, v) ∷ m) h = elim (Bool-cases (p j)) [
  | inl on ↦ rw (on, lookup-keep p k m h) refl
  | inr off ↦ rw (off, lookup-keep p k m h) (ground (arith, h, off, text_beq_iff j k))
]

module _ (wire : Wire) (ldb : LevelDb (StoreValue (LogValue wire))) (law : IsLevelDb ldb) where
  -- The last of some logs with an index.
  abbrev pub last_with : ℕ → List (RaftLog (EntryData wire)) → Option (RaftLog (EntryData wire))
  last_with j [] = none
  last_with j (l ∷ ls) =
      option_case (last_with j ls) (if nat_beq l.index j then some l else none) some

  abbrev pub AreIndexes : List (RaftLog (EntryData wire)) → Type 0
  AreIndexes = All (λ (l : RaftLog (EntryData wire)). l.index < 2 ^ 64)

  log_from_bytes-log_value :
      (use_protobuf : Bool) (l : RaftLog (EntryData wire))
      → IsLosslessWire wire
      → log_from_bytes wire (log_value wire ldb use_protobuf l) ≡ some l
  unfolding log_from_bytes log_value
  log_from_bytes-log_value use_protobuf l lossless =
      ground (arith, lossless.log l, lossless.json_log l)

  get_log-put :
      (use_protobuf : Bool) (l : RaftLog (EntryData wire)) (j : ℕ) (db : ldb.Db)
      → IsLosslessWire wire
      → l.index < 2 ^ 64
      → j < 2 ^ 64
      → get_log wire ldb j (ldb.put (log_key l.index) (log (log_value wire ldb use_protobuf l)) db)
        ≡ (if nat_beq l.index j then found l else get_log wire ldb j db)
  unfolding get_log
  get_log-put use_protobuf l j db lossless hl hj = ground (
    arith,
    law.get-put (log_key l.index) (log_key j) (log (log_value wire ldb use_protobuf l)) db,
    log_key-beq l.index j hl hj,
    log_from_bytes-log_value use_protobuf l lossless,
  )

  -- In both encodings, GetLog after StoreLogs of any logs returns the last of them that has the
  -- index, whatever was stored there before, and where none has it what it returned before.
  pub get_log-store_logs :
      (use_protobuf : Bool) (logs : List (RaftLog (EntryData wire))) (j : ℕ) (db : ldb.Db)
      → IsLosslessWire wire
      → AreIndexes logs
      → j < 2 ^ 64
      → get_log wire ldb j (store_logs wire ldb use_protobuf logs db)
        ≡ option_case (last_with j logs) (get_log wire ldb j db) found
  unfolding store_logs
  get_log-store_logs use_protobuf [] j db lossless hs hj = refl
  get_log-store_logs use_protobuf (l ∷ logs) j db lossless (hl, hs) hj = ground (
    arith,
    get_log-store_logs use_protobuf logs j
        (ldb.put (log_key l.index) (log (log_value wire ldb use_protobuf l)) db) lossless hs hj,
    get_log-put use_protobuf l j db lossless hl hj,
  )

  get-store_logs :
      (use_protobuf : Bool) (logs : List (RaftLog (EntryData wire))) (key : Text) (db : ldb.Db)
      → ldb.get (stable_prefix ++ key) (store_logs wire ldb use_protobuf logs db)
        ≡ ldb.get (stable_prefix ++ key) db
  unfolding store_logs
  get-store_logs use_protobuf [] key db = refl
  get-store_logs use_protobuf (l ∷ logs) key db =
      get-store_logs use_protobuf logs key
        (ldb.put (log_key l.index) (log (log_value wire ldb use_protobuf l)) db)
      ∙ law.get-put (log_key l.index) (stable_prefix ++ key)
          (log (log_value wire ldb use_protobuf l)) db
      ∙ rw (log_key-not_stable l.index key) refl

  get-delete_range :
      (min max : ℕ) (key : Text) (db : ldb.Db)
      → max < stable_bound
      → ldb.get (stable_prefix ++ key) (delete_range wire ldb min max db)
        ≡ ldb.get (stable_prefix ++ key) db
  unfolding delete_range get_bulk_iterator
  get-delete_range min max key db small =
      let limit = (max + 1) % 2 ^ 64 in
      let below : key_ltb (stable_prefix ++ key) (log_key limit) ≡ false =
        key_ltb-stable key limit (omega arith) in
      law.get_lem (stable_prefix ++ key) _
      ∙ ap (lookup (stable_prefix ++ key)) (entries-delete_keep ldb law (in_range min limit) db)
      ∙ lookup-keep (λ k. not (in_range min limit k)) (stable_prefix ++ key) (ldb.entries db)
          (ground (arith, below))
      ∙ sym (law.get_lem (stable_prefix ++ key) db)

  -- The settings and the logs do not get in each other's way, though they share the database: after
  -- Set or SetUint64 and then StoreLogs of any logs and DeleteRange up to an index below that of the
  -- prefix, Get of a key returns what was set if it is that key, and what it returned at the start
  -- if it is another one; and GetUint64 of the key returns the uint64 that was set.
  settings-survive :
      (use_protobuf : Bool) (logs : List (RaftLog (EntryData wire))) (min max : ℕ)
      (key other value : Text) (n : ℕ) (db : ldb.Db)
      → max < stable_bound
      → n < 2 ^ 64
      → (get_key wire ldb other (
            delete_range wire ldb min max
              (store_logs wire ldb use_protobuf logs (set_key wire ldb key value db)))
          ≡ (if key == other then value else get_key wire ldb other db))
        × (get_uint64 wire ldb key (
              delete_range wire ldb min max
                (store_logs wire ldb use_protobuf logs (set_uint64 wire ldb key n db)))
            ≡ n)
  unfolding get_key get_uint64 set_key set_uint64
  settings-survive use_protobuf logs min max key other value n db small fits = (
    rw
        (
          get-delete_range min max other _ small,
          get-store_logs use_protobuf logs other _,
          law.get-put (stable_prefix ++ key) (stable_prefix ++ other) (raw value) db,
          stable-beq key other,
        )
        (ground arith),
    rw
        (
          get-delete_range min max key _ small,
          get-store_logs use_protobuf logs key _,
          law.get-put (stable_prefix ++ key) (stable_prefix ++ key) (raw (log_key n)) db,
          ==_refl (stable_prefix ++ key),
          get_uint64,
        )
        (from_big_endian-log_key n fits),
  )
