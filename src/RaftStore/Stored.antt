-- ===== src/RaftStore/Stored.antt =====
-- internal/raftstore/leveldb.go: what a store of one log does to the logs, and the logs of a range.
use robustirc.Base.{
  ==_comm, ==_refl, All, Bool, Bool-cases, Option, Option-cases, [], ap, arith, false,
  if◌then◌else◌, inl, inr, keep, nat_eq, none, option_case, refl, some, sym, true, ℕ, ◌<◌, ◌==◌,
  ◌∙◌, ◌∷◌, ◌≡◌,
}
use robustirc.Base.Assoc.{Map, lookup}
use robustirc.RaftStore.{LevelDb, StoreValue, from_big_endian, key_ltb, last_plain, log, log_key}
use robustirc.RaftStore.Bounds.{last_plain-alone, last_plain-later, last_plain-none, last_plain-raw}
use robustirc.RaftStore.Bulk.{as_logs-keep}
use robustirc.RaftStore.Indexes.{IsEntry, as_logs, as_logs-log, as_logs-raw}
use robustirc.RaftStore.Order.{from_big_endian-log_key, stable_bound}
use robustirc.RaftStore.Ranges.{IsLevelDb, Sorted}
use robustirc.RaftStore.Stable.{log_key-beq, log_key-not_stable}
use robustirc.LogStore.{last_from}
use mathlib.Core.Path.{subst}
use robustirc.Text.{Text, text_beq_iff, text_eq}

key_ltb_self : (k : Text) → key_ltb k k ≡ false
unfolding key_ltb
key_ltb_self [] = refl
key_ltb_self (c ∷ k) = ground (arith, key_ltb_self k)

module _ {V : Type 0} where
  lookup-later :
      (k : Text) (m : Map Text V) → All (λ (j, w). key_ltb k j ≡ true) m → lookup k m ≡ none
  unfolding lookup
  lookup-later k [] h = refl
  lookup-later k ((j, w) ∷ m) (less, h) =
      ground (arith, lookup-later k m h, text_beq_iff j k, key_ltb_self k, less)

  -- What holds of all that Get finds holds of all entries, and the other way round.
  lookup-All :
      (P : Text × V → Type 0) (m : Map Text V) (k : Text) (v : V)
      → All P m
      → lookup k m ≡ some v
      → P (k, v)
  unfolding lookup
  lookup-All P [] k v all h = absurd (cc)
  lookup-All P ((j, w) ∷ m) k v (p, all) h = elim (Bool-cases (j == k)) [
    | inl same ↦
        let own : w ≡ v = ground (arith, h, same) in subst P (cc ((text_beq_iff j k).0 same, own)) p
    | inr other ↦ lookup-All P m k v all (ground (arith, h, other))
  ]

  All-lookup :
      (P : Text × V → Type 0) (m : Map Text V)
      → Sorted m
      → ((k : Text) (v : V) → lookup k m ≡ some v → P (k, v))
      → All P m
  All-lookup P [] sorted h = tt
  All-lookup P ((k, v) ∷ m) (first, sorted) h = (
    h k v (unfold lookup in rw (==_refl k) refl),
    All-lookup P m sorted (λ j w found.
        h j w (unfold lookup in ground (arith, found, lookup-later k m first, text_beq_iff k j))),
  )

module _ (W : Type 0) where
  -- A test of keys that is one of indexes keeps the logs with these indexes.
  pub as_logs-keep_lem :
      (p : Text → Bool) (q : ℕ → Bool) (m : Map Text (StoreValue W))
      → ((i : ℕ) → i < stable_bound → p (log_key i) ≡ q i)
      → All (IsEntry W) m
      → as_logs W (keep (λ (k, v). p k) m) ≡ keep (λ (i, w). q i) (as_logs W m)
  as_logs-keep_lem p q [] same valid = unfold as_logs in refl
  as_logs-keep_lem p q ((k, v) ∷ m) same (inl (i, w, ek, small, ev), valid) =
      let rest = keep (λ (k, v). p k) m in
      let ih = as_logs-keep_lem p q m same valid in
      let here : p k ≡ q i = ap p ek ∙ same i small in
      elim (Bool-cases (p k)) [
        | inl on ↦
            rw
              (
                on,
                as_logs-log W k v i w rest ek small ev,
                as_logs-log W k v i w m ek small ev,
                sym here ∙ on,
              )
              (ap (λ n. (i, w) ∷ n) ih)
        | inr off ↦ rw (off, as_logs-log W k v i w m ek small ev, sym here ∙ off) ih
      ]
  as_logs-keep_lem p q ((k, v) ∷ m) same (inr (r, bytes, ek, ev), valid) =
      as_logs-keep W p k v bytes m ev
      ∙ as_logs-keep_lem p q m same valid
      ∙ ap (keep (λ (i, w). q i)) (sym (as_logs-raw W k v bytes m ev))

  abbrev pub log_of : Option (StoreValue W) → Option W
  log_of (some (log w)) = some w
  log_of _ = none

  pub lookup-as_logs :
      (j : ℕ) (m : Map Text (StoreValue W))
      → j < stable_bound
      → All (IsEntry W) m
      → lookup j (as_logs W m) ≡ log_of (lookup (log_key j) m)
  unfolding lookup
  lookup-as_logs j [] small valid = unfold as_logs in refl
  lookup-as_logs j ((k, v) ∷ m) small (inl (i, w, ek, below, ev), valid) =
      let ih = lookup-as_logs j m small valid in
      rw (as_logs-log W k v i w m ek below ev, ek, ev)
        (ground (arith, ih, log_key-beq i j (omega arith) (omega arith)))
  lookup-as_logs j ((k, v) ∷ m) small (inr (r, bytes, ek, ev), valid) =
      let other : (k == log_key j) ≡ false =
        ==_comm k (log_key j) ∙ ap (λ (t : Text). log_key j == t) ek ∙ log_key-not_stable j r in
      rw (as_logs-raw W k v bytes m ev, other) (lookup-as_logs j m small valid)

  pub last_plain-last :
      (d : ℕ) (m : Map Text (StoreValue W))
      → All (IsEntry W) m
      → option_case (last_plain m) d from_big_endian ≡ last_from d (as_logs W m)
  last_plain-last d [] valid = unfold last_plain in unfold as_logs in refl
  last_plain-last d ((k, v) ∷ m) (inl (i, w, ek, small, ev), valid) =
      rw (as_logs-log W k v i w m ek small ev) (elim (Option-cases (last_plain m)) [
        | inl alone ↦
            rw (last_plain-alone W i k v m ek alone, last_plain-none W m valid alone, ek)
              (from_big_endian-log_key i (omega arith))
        | inr (j, later) ↦ rw (last_plain-later W k j v m later) (
            ap (λ (o : Option Text). option_case o i from_big_endian) (sym later)
            ∙ last_plain-last i m valid)
      ])
  last_plain-last d ((k, v) ∷ m) (inr (r, bytes, ek, ev), valid) =
      rw (as_logs-raw W k v bytes m ev, last_plain-raw W r k v m ek) (last_plain-last d m valid)

module _ (W : Type 0) (ldb : LevelDb (StoreValue W)) (law : IsLevelDb ldb) where
  lookup-put :
      (k j : Text) (v : StoreValue W) (db : ldb.Db)
      → lookup j (ldb.entries (ldb.put k v db))
        ≡ (if k == j then some v else lookup j (ldb.entries db))
  lookup-put k j v db =
      sym (law.get_lem j (ldb.put k v db)) ∙ law.get-put k j v db ∙ rw (law.get_lem j db) refl

  -- A store of a log keeps the form of the entries.
  pub put-IsEntry :
      (i : ℕ) (w : W) (db : ldb.Db)
      → i < stable_bound
      → All (IsEntry W) (ldb.entries db)
      → All (IsEntry W) (ldb.entries (ldb.put (log_key i) (log w) db))
  put-IsEntry i w db small valid =
      All-lookup (IsEntry W) _ (law.sorted (ldb.put (log_key i) (log w) db)) (λ k v found.
        elim (Bool-cases (log_key i == k)) [
          | inl same ↦ inl (
            i,
            w,
            sym ((text_beq_iff (log_key i) k).0 same),
            small,
            ground (arith, found, lookup-put (log_key i) k (log w) db, same),
          )
          | inr other ↦
              lookup-All (IsEntry W) (ldb.entries db) k v valid
                (ground (arith, found, lookup-put (log_key i) k (log w) db, other))
        ])

  -- It is found under its index, and the others as before.
  pub lookup-put_log :
      (i j : ℕ) (w : W) (db : ldb.Db)
      → i < stable_bound
      → j < stable_bound
      → All (IsEntry W) (ldb.entries db)
      → lookup j (as_logs W (ldb.entries (ldb.put (log_key i) (log w) db)))
        ≡ (if i == j then some w else lookup j (as_logs W (ldb.entries db)))
  lookup-put_log i j w db small below valid =
      lookup-as_logs W j _ below (put-IsEntry i w db small valid)
      ∙ ap (log_of W) (lookup-put (log_key i) (log_key j) (log w) db)
      ∙ rw
          (
            log_key-beq i j (omega arith) (omega arith),
            lookup-as_logs W j (ldb.entries db) below valid,
          )
          (ground arith)
