-- ===== src/LogStore.antt =====
-- internal/raftstore/leveldb.go, as the state machine uses it: a store of log entries by their
-- indexes, with the operations that it calls and what it relies on. Errors of the database are left
-- out.
use robustirc.Base.{
  All, [], elem, if◌then◌else◌, keep, leb, ltb, nat_eq, not, some, suc, true, ℕ, ◌&&◌, ◌<◌, ◌==◌,
  ◌∷◌, ◌≡◌, ◌≤◌,
}
use robustirc.Base.Assoc.{Map, delete, keys, lookup}
use robustirc.Base.Distinct.{Distinct}

pub record LogStore (V : Type 0) : Type 1 where
  pub Db : Type 0
  -- a new database
  pub empty : Db
  -- FirstIndex and LastIndex, 0 if there is no entry
  pub first_index : Db → ℕ
  pub last_index : Db → ℕ
  -- what an iterator of GetBulkIterator(start, limit) visits
  pub bulk : ℕ → ℕ → Db → Map ℕ V
  -- DeleteRange(min, max)
  pub delete_range : ℕ → ℕ → Db → Db
  -- StoreLogProto and WriteBatch, of one entry
  pub store : ℕ → V → Db → Db

-- The index of the first entry.
abbrev pub head_index {ℓ} : {V : Type ℓ} → Map ℕ V → ℕ
head_index [] = 0
head_index ((i, v) ∷ m) = i

-- The index of the last entry, or a default.
abbrev pub last_from {ℓ} : {V : Type ℓ} → ℕ → Map ℕ V → ℕ
last_from d [] = d
last_from d ((i, v) ∷ m) = last_from i m

-- The indexes grow.
abbrev pub IsIncreasing {ℓ} : {V : Type ℓ} → Map ℕ V → Type ℓ
IsIncreasing [] = Unit
IsIncreasing ((i, v) ∷ m) = All (λ (j, w). i < j) m × IsIncreasing m

-- What Snapshot and Restore rely on: there are databases on which FirstIndex, an iterator over
-- everything, and DeleteRange of one index do this to some entries.
pub record IsLogStore {V : Type 0} (s : LogStore V) : Type 1 where
  pub IsDb : s.Db → Type 0
  pub entries : s.Db → Map ℕ V
  pub distinct : (db : s.Db) → IsDb db → Distinct (keys (entries db))
  pub empty-IsDb : IsDb s.empty
  pub entries_empty : entries s.empty ≡ []
  pub first_index_lem : (db : s.Db) → IsDb db → s.first_index db ≡ head_index (entries db)
  pub bulk_all :
      (db : s.Db) → IsDb db → s.bulk (s.first_index db) (suc (s.last_index db)) db ≡ entries db
  pub delete-IsDb : (i : ℕ) (db : s.Db) → IsDb db → IsDb (s.delete_range i i db)
  pub delete_one :
      (i : ℕ) (db : s.Db)
      → IsDb db
      → elem i (keys (entries db)) ≡ true
      → entries (s.delete_range i i db) ≡ delete i (entries db)

-- What a store of logs promises, for indexes below a bound: new databases, stores and deletions lead
-- to such databases, and say what their entries are, in the order of the indexes; and all that is
-- read is read from these entries.
pub record IsLogMap {V : Type 0} (s : LogStore V) (bound : ℕ) : Type 1 where
  pub laws : IsLogStore s
  pub increasing : (db : s.Db) → laws.IsDb db → IsIncreasing (laws.entries db)
  pub below : (db : s.Db) → laws.IsDb db → All (λ (j, v). j < bound) (laws.entries db)
  pub store-IsDb :
      (i : ℕ) (v : V) (db : s.Db) → i < bound → laws.IsDb db → laws.IsDb (s.store i v db)
  pub lookup-store :
      (i j : ℕ) (v : V) (db : s.Db)
      → i < bound
      → laws.IsDb db
      → lookup j (laws.entries (s.store i v db))
        ≡ (if i == j then some v else lookup j (laws.entries db))
  pub delete_range-IsDb :
      (min max : ℕ) (db : s.Db) → max < bound → laws.IsDb db → laws.IsDb (s.delete_range min max db)
  pub entries-delete_range :
      (min max : ℕ) (db : s.Db)
      → min < bound
      → max < bound
      → laws.IsDb db
      → laws.entries (s.delete_range min max db)
        ≡ keep (λ (j, v). not (leb min j && leb j max)) (laws.entries db)
  pub bulk_range :
      (start limit : ℕ) (db : s.Db)
      → start ≤ bound
      → limit ≤ bound
      → laws.IsDb db
      → s.bulk start limit db ≡ keep (λ (j, v). leb start j && ltb j limit) (laws.entries db)
  pub last_index_lem : (db : s.Db) → laws.IsDb db → s.last_index db ≡ last_from 0 (laws.entries db)
