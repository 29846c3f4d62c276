-- ===== src/RaftStore/Bulk.antt =====
-- internal/raftstore/leveldb.go: the range of an iterator, and the deletion of one log.
use robustirc.RaftStore.Indexes.{IsEntry, as_logs, as_logs-log, as_logs-raw}
use robustirc.RaftStore.Bounds.{UpTo}
use robustirc.Base.{
  All, Bool, Bool-cases, List, [], ap, arith, elem, false, inl, inr, keep, leb, ltb, nat_beq,
  nat_eq, not, refl, suc, sym, true, ℕ, ◌&&◌, ◌<◌, ◌^◌, ◌∙◌, ◌∷◌, ◌≡◌, ◌≤◌, ◌⊎◌,
}
use robustirc.Base.Assoc.{Map, delete, keys}
use robustirc.RaftStore.{StoreValue, in_range, log_key, raw}
use robustirc.RaftStore.Order.{key_ltb-log_key, stable_bound}
use robustirc.Text.{Text, text_eq}

module _ (W : Type 0) where
  -- The indexes of a range.
  abbrev pub Within : ℕ → ℕ → Map ℕ W → Type 0
  Within start limit m = All (λ (j, u). (start ≤ j) × (j < limit)) m

  pub in_range-log :
      (start limit i : ℕ) (k : Text)
      → i < stable_bound
      → start < 2 ^ 64
      → limit < 2 ^ 64
      → k ≡ log_key i
      → in_range start limit k ≡ (leb start i && ltb i limit)
  in_range-log start limit i k small hs hl ek =
      ap (in_range start limit) ek
      ∙ rw (key_ltb-log_key i start (omega arith) hs, key_ltb-log_key i limit (omega arith) hl)
          (ground arith)

  pub as_logs-keep :
      (p : Text → Bool) (k : Text) (v : StoreValue W) (bytes : Text) (m : Map Text (StoreValue W))
      → v ≡ raw bytes
      → as_logs W (keep (λ (k, v). p k) ((k, v) ∷ m)) ≡ as_logs W (keep (λ (k, v). p k) m)
  as_logs-keep p k v bytes m ev = elim (Bool-cases (p k)) [
    | inl on ↦ rw on (as_logs-raw W k v bytes (keep (λ (k, v). p k) m) ev)
    | inr off ↦ rw off refl
  ]

  -- A range that holds all indexes visits all logs, and no setting is decoded as one.
  pub bulk_all_lem :
      (start limit : ℕ) (m : Map Text (StoreValue W))
      → start < 2 ^ 64
      → limit < 2 ^ 64
      → All (IsEntry W) m
      → Within start limit (as_logs W m)
      → as_logs W (keep (λ (k, v). in_range start limit k) m) ≡ as_logs W m
  bulk_all_lem start limit [] hs hl valid within = refl
  bulk_all_lem start limit ((k, v) ∷ m) hs hl (inl (i, w, ek, small, ev), valid) within =
      let parts = rw (as_logs-log W k v i w m ek small ev) at within in
      let hit : in_range start limit k ≡ true =
        ground (arith, in_range-log start limit i k small hs hl ek, parts.0) in
      rw hit (
        as_logs-log W k v i w (keep (λ (k, v). in_range start limit k) m) ek small ev
        ∙ ap (λ n. (i, w) ∷ n) (bulk_all_lem start limit m hs hl valid parts.1)
        ∙ sym (as_logs-log W k v i w m ek small ev))
  bulk_all_lem start limit ((k, v) ∷ m) hs hl (inr (r, bytes, ek, ev), valid) within =
      as_logs-keep (in_range start limit) k v bytes m ev
      ∙ bulk_all_lem start limit m hs hl valid (rw (as_logs-raw W k v bytes m ev) at within)
      ∙ sym (as_logs-raw W k v bytes m ev)

  pub delete-hit :
      (j i : ℕ) (w : W) (n : Map ℕ W) → nat_beq j i ≡ true → delete i ((j, w) ∷ n) ≡ delete i n
  unfolding delete
  delete-hit j i w n e = rw e refl

  pub delete-miss :
      (j i : ℕ) (w : W) (n : Map ℕ W)
      → nat_beq j i ≡ false
      → delete i ((j, w) ∷ n) ≡ (j, w) ∷ delete i n
  unfolding delete
  delete-miss j i w n e = rw e refl

  -- DeleteRange(i, i) takes out the log with that index.
  pub delete-one :
      (i : ℕ) (m : Map Text (StoreValue W))
      → suc i < 2 ^ 64
      → All (IsEntry W) m
      → as_logs W (keep (λ (k, v). not (in_range i (suc i) k)) m) ≡ delete i (as_logs W m)
  delete-one i [] hi valid = unfold as_logs delete in refl
  delete-one i ((k, v) ∷ m) hi (inl (j, w, ek, small, ev), valid) =
      let test = in_range-log i (suc i) j k small (omega arith) hi ek in
      let left = as_logs-log W k v j w m ek small ev in
      elim (Bool-cases (nat_beq j i)) [
        | inl e ↦
            let hit : in_range i (suc i) k ≡ true = ground (arith, test, e) in
            rw hit (
              delete-one i m hi valid ∙ sym (ap (delete i) left ∙ delete-hit j i w (as_logs W m) e))
        | inr e ↦
            let miss : in_range i (suc i) k ≡ false = ground (arith, test, e) in
            rw miss (
              as_logs-log W k v j w (keep (λ (k, v). not (in_range i (suc i) k)) m) ek small ev
              ∙ ap (λ n. (j, w) ∷ n) (delete-one i m hi valid)
              ∙ sym (ap (delete i) left ∙ delete-miss j i w (as_logs W m) e))
      ]
  delete-one i ((k, v) ∷ m) hi (inr (r, bytes, ek, ev), valid) =
      as_logs-keep (λ k. not (in_range i (suc i) k)) k v bytes m ev
      ∙ delete-one i m hi valid
      ∙ ap (delete i) (sym (as_logs-raw W k v bytes m ev))

  pub elem-cons-cases :
      (i j : ℕ) (js : List ℕ) → elem i (j ∷ js) ≡ true → (j ≡ i) ⊎ (elem i js ≡ true)
  unfolding elem
  elem-cons-cases i j js h = elim (Bool-cases (nat_beq j i)) [
    | inl e ↦ inl (ground arith)
    | inr e ↦ inr (ground arith)
  ]

  pub index-small :
      (i : ℕ) (m : Map Text (StoreValue W))
      → All (IsEntry W) m
      → elem i (keys (as_logs W m)) ≡ true
      → i < stable_bound
  index-small i [] valid h = absurd (unfold as_logs elem in cc)
  index-small i ((k, v) ∷ m) (inl (j, w, ek, small, ev), valid) h =
      elim (elem-cons-cases i j (keys (as_logs W m))
        (rw (as_logs-log W k v j w m ek small ev) at h)) [
          | inl same ↦ omega arith
          | inr later ↦ index-small i m valid later
        ]
  index-small i ((k, v) ∷ m) (inr (r, bytes, ek, ev), valid) h =
      index-small i m valid (rw (as_logs-raw W k v bytes m ev) at h)

  pub All-keep :
      (p : Text × StoreValue W → Bool) (m : Map Text (StoreValue W))
      → All (IsEntry W) m
      → All (IsEntry W) (keep p m)
  All-keep p [] valid = tt
  All-keep p (e ∷ m) (h, valid) = elim (Bool-cases (p e)) [
    | inl on ↦ rw on (h, All-keep p m valid)
    | inr off ↦ rw off (All-keep p m valid)
  ]

  pub Within-both :
      (a b : ℕ) (n : Map ℕ W) → All (λ (j, u). a ≤ j) n → UpTo W b n → Within a (suc b) n
  Within-both a b [] low high = tt
  Within-both a b ((j, u) ∷ n) (l, low) (h, high) = ((l, omega arith), Within-both a b n low high)
