-- ===== src/RaftStore/Logs.antt =====
-- internal/raftstore/leveldb.go: the store is a log store.
use robustirc.RaftStore.Indexes.{
  IsEntry, as_logs, Increasing, as_logs-Increasing, Increasing-head, Increasing-Distinct,
}
use robustirc.RaftStore.Bounds.{
  first_plain-head, last_plain-greatest, as_logs-small, head-small, last-small,
}
use robustirc.RaftStore.Bulk.{
  in_range-log, bulk_all_lem, delete-one, index-small, All-keep, Within-both,
}
use robustirc.Base.{
  [], ◌∷◌, Bool-cases, if◌then◌else◌, inl, inr, keep, leb, ltb, none, not, refl, some, ◌&&◌, ◌<◌,
  ◌==◌, ◌≤◌, option_case, Option, All, ap, arith, elem, nat_eq, suc, true, ℕ, ◌%◌, ◌+◌, ◌^◌, ◌∙◌,
  ◌≡◌,
}
use robustirc.Base.Assoc.{Map, delete, keys, lookup}
use robustirc.RaftStore.Order.{stable_bound}
use robustirc.RaftStore.Stored.{as_logs-keep_lem, last_plain-last, lookup-put_log, put-IsEntry}
use robustirc.LogStore.{IsLogMap, IsLogStore, LogStore, head_index, last_from}
use robustirc.RaftStore.{
  LevelDb, StoreValue, delete_range, first_index, get_bulk_iterator, in_range, last_index, log,
  from_big_endian, index_or_zero, last_plain, log_key,
}
use robustirc.RaftStore.Ranges.{IsLevelDb, entries-delete_keep}
use robustirc.Text.{Text, text_eq}
use robustirc.Wire.{LogValue, Wire}

index_or_zero-option_case : (o : Option Text) → index_or_zero o ≡ option_case o 0 from_big_endian
index_or_zero-option_case none = refl
index_or_zero-option_case (some k) = refl

module _ (wire : Wire) (ldb : LevelDb (StoreValue (LogValue wire))) (law : IsLevelDb ldb) where
  -- A database as raft and the state machine build it: logs below the bound, and settings.
  abbrev pub IsRaftDb : ldb.Db → Type 0
  IsRaftDb db = All (IsEntry (LogValue wire)) (ldb.entries db)

  abbrev pub logs_of : ldb.Db → Map ℕ (LogValue wire)
  logs_of db = as_logs (LogValue wire) (ldb.entries db)

  abbrev pub raft_log_store : LogStore (LogValue wire)
  raft_log_store = record {
    Db = ldb.Db;
    empty = ldb.empty;
    first_index = first_index wire ldb;
    last_index = last_index wire ldb;
    bulk = λ start limit db. as_logs (LogValue wire) (get_bulk_iterator wire ldb start limit db);
    delete_range = delete_range wire ldb;
    store = λ index value db. ldb.put (log_key index) (log value) db;
  }

  pub delete-IsRaftDb :
      (min max : ℕ) (db : ldb.Db) → IsRaftDb db → IsRaftDb (delete_range wire ldb min max db)
  unfolding delete_range get_bulk_iterator
  delete-IsRaftDb min max db valid =
      rw (entries-delete_keep ldb law (in_range min ((max + 1) % 2 ^ 64)) db)
        (All-keep (LogValue wire) _ (ldb.entries db) valid)

  pub delete-range-one :
      (i : ℕ) (db : ldb.Db)
      → IsRaftDb db
      → elem i (keys (logs_of db)) ≡ true
      → logs_of (delete_range wire ldb i i db) ≡ delete i (logs_of db)
  unfolding delete_range get_bulk_iterator
  delete-range-one i db valid there =
      let small = index-small (LogValue wire) i (ldb.entries db) valid there in
      let wraps : (i + 1) % 2 ^ 64 ≡ suc i = omega (arith, small) in
      ap (as_logs (LogValue wire)) (entries-delete_keep ldb law (in_range i ((i + 1) % 2 ^ 64)) db)
      ∙ rw wraps (delete-one (LogValue wire) i (ldb.entries db) (omega (arith, small)) valid)

  pub first-lem : (db : ldb.Db) → IsRaftDb db → first_index wire ldb db ≡ head_index (logs_of db)
  unfolding first_index
  first-lem db valid = first_plain-head (LogValue wire) (ldb.entries db) valid

  pub increasing : (db : ldb.Db) → IsRaftDb db → Increasing (LogValue wire) (logs_of db)
  increasing db valid = as_logs-Increasing (LogValue wire) (ldb.entries db) valid (law.sorted db)

  pub bulk-lem :
      (db : ldb.Db)
      → IsRaftDb db
      → as_logs
          (LogValue wire)
          (get_bulk_iterator wire ldb (first_index wire ldb db) (suc (last_index wire ldb db)) db)
        ≡ logs_of db
  unfolding get_bulk_iterator
  bulk-lem db valid =
      bulk_all_lem (LogValue wire) (first_index wire ldb db) (suc (last_index wire ldb db))
        (ldb.entries db)
        (rw (first-lem db valid) (
          omega (
            arith,
            head-small (LogValue wire) (logs_of db)
                (as_logs-small (LogValue wire) (ldb.entries db) valid),
          )))
        (unfold last_index in omega (arith, last-small (LogValue wire) (ldb.entries db) valid))
        valid
        (rw (first-lem db valid) (
          Within-both (LogValue wire) (head_index (logs_of db)) (last_index wire ldb db)
            (logs_of db) (Increasing-head (LogValue wire) (logs_of db) (increasing db valid))
            (unfold last_index in
              last_plain-greatest (LogValue wire) (ldb.entries db) valid (increasing db valid))))

  -- The entries of the store are its logs, and its laws are the lemmas above.
  unfoldable pub raft_laws : IsLogStore raft_log_store
  unfolding as_logs
  raft_laws = record {
    IsDb = IsRaftDb;
    entries = logs_of;
    distinct = λ db valid. Increasing-Distinct (LogValue wire) (logs_of db) (increasing db valid);
    empty-IsDb = rw law.entries_empty tt;
    entries_empty = ap (as_logs (LogValue wire)) law.entries_empty;
    first_index_lem = first-lem;
    bulk_all = bulk-lem;
    delete-IsDb = λ i db valid. delete-IsRaftDb i i db valid;
    delete_one = delete-range-one;
  }

  range-log :
      (min max : ℕ) (i : ℕ)
      → min ≤ stable_bound
      → max ≤ stable_bound
      → i < stable_bound
      → in_range min max (log_key i) ≡ (leb min i && ltb i max)
  range-log min max i small fits below =
      in_range-log (LogValue wire) min max i (log_key i) below (omega arith) (omega arith) refl

  lookup-below :
      (j : ℕ) (m : Map ℕ (LogValue wire))
      → stable_bound ≤ j
      → All (λ (i, v). i < stable_bound) m
      → lookup j m ≡ none
  unfolding lookup
  lookup-below j [] high h = refl
  lookup-below j ((i, v) ∷ m) high (below, h) = ground (arith, lookup-below j m high h)

  lookup-store_log :
      (i j : ℕ) (v : LogValue wire) (db : ldb.Db)
      → i < stable_bound
      → IsRaftDb db
      → lookup j (logs_of (ldb.put (log_key i) (log v) db))
        ≡ (if i == j then some v else lookup j (logs_of db))
  lookup-store_log i j v db small valid = elim (Bool-cases (ltb j stable_bound)) [
    | inl below ↦ lookup-put_log (LogValue wire) ldb law i j v db small (ground arith) valid
    | inr high ↦
        let after = put-IsEntry (LogValue wire) ldb law i v db small valid in
        ground (
          arith,
          lookup-below j (logs_of (ldb.put (log_key i) (log v) db)) (ground arith)
              (as_logs-small (LogValue wire) _ after),
          lookup-below j (logs_of db) (ground arith) (as_logs-small (LogValue wire) _ valid),
        )
  ]

  delete_range-lem :
      (min max : ℕ) (db : ldb.Db)
      → min < stable_bound
      → max < stable_bound
      → IsRaftDb db
      → logs_of (delete_range wire ldb min max db)
        ≡ keep (λ (j, v). not (leb min j && leb j max)) (logs_of db)
  unfolding delete_range get_bulk_iterator
  delete_range-lem min max db small fits valid =
      let limit = (max + 1) % 2 ^ 64 in
      ap (as_logs (LogValue wire)) (entries-delete_keep ldb law (in_range min limit) db)
      ∙ as_logs-keep_lem (LogValue wire) (λ k. not (in_range min limit k))
          (λ j. not (leb min j && leb j max)) (ldb.entries db)
          (λ i below.
            let wraps : limit ≡ max + 1 = omega arith in
            rw (wraps, range-log min (max + 1) i (omega arith) (omega arith) below) (ground arith))
          valid

  bulk-range :
      (start limit : ℕ) (db : ldb.Db)
      → start ≤ stable_bound
      → limit ≤ stable_bound
      → IsRaftDb db
      → as_logs (LogValue wire) (get_bulk_iterator wire ldb start limit db)
        ≡ keep (λ (j, v). leb start j && ltb j limit) (logs_of db)
  unfolding get_bulk_iterator
  bulk-range start limit db small fits valid =
      as_logs-keep_lem (LogValue wire) (in_range start limit) (λ j. leb start j && ltb j limit)
        (ldb.entries db) (λ i below. range-log start limit i small fits below) valid

  last-lem : (db : ldb.Db) → IsRaftDb db → last_index wire ldb db ≡ last_from 0 (logs_of db)
  unfolding last_index
  last-lem db valid =
      index_or_zero-option_case (last_plain (ldb.entries db))
      ∙ last_plain-last (LogValue wire) 0 (ldb.entries db) valid

  -- Over a LevelDB database, for indexes below that of the prefix "stablestore-", the raft store is
  -- an ordered map of logs: in every database that new databases, stores of logs and deletions of
  -- ranges lead to, a log is found under the index under which it was stored last, a deleted range is
  -- gone and the other logs are as before; FirstIndex and LastIndex are the least and the greatest
  -- index, and iterators visit the logs of their range, in the order of the indexes.
  pub raft_log_store-IsLogMap : IsLogMap raft_log_store stable_bound
  unfolding raft_laws
  raft_log_store-IsLogMap = record {
    laws = raft_laws;
    increasing = increasing;
    below = λ db valid. as_logs-small (LogValue wire) (ldb.entries db) valid;
    store-IsDb = λ i v db small valid. put-IsEntry (LogValue wire) ldb law i v db small valid;
    lookup-store = lookup-store_log;
    delete_range-IsDb = λ min max db small valid. delete-IsRaftDb min max db valid;
    entries-delete_range = delete_range-lem;
    bulk_range = bulk-range;
    last_index_lem = last-lem;
  }
