-- ===== src/RaftStore/Ranges.antt =====
-- internal/raftstore/leveldb.go: what LevelDB is taken to do, and DeleteRange as a filter.
use robustirc.Base.{
  ==_comm, All, Bool, Bool-cases, List, [], ap, arith, elem, if◌then◌else◌, keep, not, inl, inr,
  refl, some, sym, true, ◌&&◌, ◌++◌, ◌==◌, ◌∙◌, ◌∷◌, ◌≡◌,
}
use robustirc.Base.Assoc.{Map, delete, keys, lookup}
use robustirc.Base.Distinct.{elem-keys}
use robustirc.RaftStore.{LevelDb, delete_keys, key_ltb}
use robustirc.Text.{Text, text_beq_iff, text_eq}
use mathlib.Core.List.{append_assoc}
use mathlib.Core.Path.{subst}

-- The entries after each one have greater keys.
abbrev pub Sorted {ℓ} : {V : Type ℓ} → Map Text V → Type ℓ
Sorted [] = Unit
Sorted ((k, v) ∷ m) = All (λ (j, w). key_ltb k j ≡ true) m × Sorted m

-- What the code relies on: an iterator visits the entries in the order of their keys, Get reads
-- them, Put changes one key, and Delete takes one out.
pub record IsLevelDb {V : Type 0} (ldb : LevelDb V) : Type 0 where
  pub entries_empty : ldb.entries ldb.empty ≡ []
  pub sorted : (db : ldb.Db) → Sorted (ldb.entries db)
  pub get_lem : (k : Text) (db : ldb.Db) → ldb.get k db ≡ lookup k (ldb.entries db)
  pub get-put :
      (k j : Text) (v : V) (db : ldb.Db)
      → ldb.get j (ldb.put k v db) ≡ (if k == j then some v else ldb.get j db)
  pub entries-delete :
      (k : Text) (db : ldb.Db) → ldb.entries (ldb.delete k db) ≡ delete k (ldb.entries db)

module _ {V : Type 0} where
  keep-cong :
      (f g : Text × V → Bool) (m : Map Text V) → All (λ e. f e ≡ g e) m → keep f m ≡ keep g m
  keep-cong f g [] h = refl
  keep-cong f g (e ∷ m) (same, h) = rw (same, keep-cong f g m h) refl

  keep-delete :
      (k : Text) (ks : List Text) (m : Map Text V)
      → keep (λ (j, v). not (elem j ks)) (delete k m) ≡ keep (λ (j, v). not (elem j (k ∷ ks))) m
  unfolding delete elem
  keep-delete k ks [] = refl
  keep-delete k ks ((j, v) ∷ m) = elim (Bool-cases (j == k)) [
    | inl e ↦ rw (==_comm k j, e) (keep-delete k ks m)
    | inr e ↦ rw (==_comm k j, e, sym (keep-delete k ks m)) refl
  ]

  elem-keys-keep :
      (p : Text → Bool) (k : Text) (m : Map Text V)
      → elem k (keys (keep (λ (j, v). p j) m)) ≡ (p k && elem k (keys m))
  unfolding elem
  elem-keys-keep p k [] = ground arith
  elem-keys-keep p k ((j, v) ∷ m) = elim (Bool-cases (p j)) [
    | inl on ↦ rw on (ground (arith, on, elem-keys-keep p k m, text_beq_iff j k))
    | inr off ↦ rw off (ground (arith, off, elem-keys-keep p k m, text_beq_iff j k))
  ]

  keys-elem : (front m : Map Text V) → All (λ (j, v). elem j (keys (front ++ m)) ≡ true) m
  unfolding elem
  keys-elem front [] = tt
  keys-elem front ((k, v) ∷ m) = (
    elem-keys front k v m,
    subst (λ (n : Map Text V). All (λ (j, w). elem j (keys n) ≡ true) m)
        (append_assoc front ((k, v) ∷ []) m) (keys-elem (front ++ (k, v) ∷ []) m),
  )

  range-not :
      (p : Text → Bool) (n m : Map Text V)
      → All (λ (j, v). elem j (keys n) ≡ true) m
      → All (λ (j, v). not (elem j (keys (keep (λ (k, w). p k) n))) ≡ not (p j)) m
  range-not p n [] h = tt
  range-not p n ((j, v) ∷ m) (here, h) =
      (rw (elem-keys-keep p j n, here) (ground arith), range-not p n m h)

  keep-all : (m : Map Text V) → keep (λ (j, v). not (elem j [])) m ≡ m
  unfolding elem
  keep-all [] = refl
  keep-all (e ∷ m) = ap (λ n. e ∷ n) (keep-all m)

module _ {V : Type 0} (ldb : LevelDb V) (law : IsLevelDb ldb) where
  entries-delete_keys :
      (ks : List Text) (db : ldb.Db)
      → ldb.entries (delete_keys ldb ks db) ≡ keep (λ (j, v). not (elem j ks)) (ldb.entries db)
  unfolding delete_keys
  entries-delete_keys [] db = sym (keep-all (ldb.entries db))
  entries-delete_keys (k ∷ ks) db =
      entries-delete_keys ks (ldb.delete k db)
      ∙ ap (keep (λ (j, v). not (elem j ks))) (law.entries-delete k db)
      ∙ keep-delete k ks (ldb.entries db)

  -- Deleting the keys that pass a test leaves the entries whose keys do not.
  pub entries-delete_keep :
      (p : Text → Bool) (db : ldb.Db)
      → ldb.entries (delete_keys ldb (keys (keep (λ (k, v). p k) (ldb.entries db))) db)
        ≡ keep (λ (k, v). not (p k)) (ldb.entries db)
  entries-delete_keep p db =
      entries-delete_keys (keys (keep (λ (k, v). p k) (ldb.entries db))) db
      ∙ keep-cong _ _ (ldb.entries db)
          (range-not p (ldb.entries db) (ldb.entries db) (keys-elem [] (ldb.entries db)))
