-- ===== src/RaftStore/Indexes.antt =====
-- internal/raftstore/leveldb.go: the logs of a database by their indexes.
use robustirc.Base.{
  All, [], ap, arith, elem, false, inl, inr, length, nat_eq, refl, true, ℕ, ◌++◌, ◌<◌, ◌∷◌, ◌≡◌,
  ◌≤◌, ◌⊎◌,
}
use robustirc.Base.Assoc.{Map, keys}
use robustirc.Base.Distinct.{Distinct}
use robustirc.LogStore.{IsIncreasing, head_index}
use robustirc.RaftStore.{
  StoreValue, from_big_endian, is_stable, key_ltb, log, log_key, raw, stable_prefix,
}
use robustirc.RaftStore.Order.{
  from_big_endian-log_key, key_ltb-log_key, length-big_endian, stable_bound,
}
use robustirc.RaftStore.Ranges.{Sorted}
use robustirc.Text.{Text, has_prefix, text, text_eq}

has_prefix-short : (s p : Text) → length s < length p → has_prefix s p ≡ false
unfolding has_prefix
has_prefix-short s [] h = absurd (omega arith)
has_prefix-short [] (d ∷ p) h = refl
has_prefix-short (c ∷ s) (d ∷ p) h = ground (arith, has_prefix-short s p (omega arith))

pub log_key-is_stable : (i : ℕ) → is_stable (log_key i) ≡ false
unfolding text
log_key-is_stable i =
    has_prefix-short (log_key i) stable_prefix (omega (arith, length-big_endian 8 i))

pub stable-is_stable : (rest : Text) → is_stable (stable_prefix ++ rest) ≡ true
unfolding text has_prefix
stable-is_stable rest = refl

module _ (W : Type 0) where
  -- An entry of the database: a log under its index, or a setting.
  abbrev pub IsEntry : Text × StoreValue W → Type 0
  IsEntry (k, v) =
      ((i : ℕ) × (w : W) × (k ≡ log_key i) × (i < stable_bound) × (v ≡ log w))
      ⊎ ((rest : Text) × (bytes : Text) × (k ≡ stable_prefix ++ rest) × (v ≡ raw bytes))

  -- The logs, as a reader of an iterator decodes their keys.
  unfoldable pub as_logs : Map Text (StoreValue W) → Map ℕ W
  as_logs [] = []
  as_logs ((k, log w) ∷ m) = (from_big_endian k, w) ∷ as_logs m
  as_logs ((k, raw bytes) ∷ m) = as_logs m

  pub as_logs-log :
      (k : Text) (v : StoreValue W) (i : ℕ) (w : W) (m : Map Text (StoreValue W))
      → k ≡ log_key i
      → i < stable_bound
      → v ≡ log w
      → as_logs ((k, v) ∷ m) ≡ (i, w) ∷ as_logs m
  as_logs-log k v i w m ek small ev =
      rw (ek, ev) (unfold as_logs in rw (from_big_endian-log_key i (omega arith)) refl)

  pub as_logs-raw :
      (k : Text) (v : StoreValue W) (bytes : Text) (m : Map Text (StoreValue W))
      → v ≡ raw bytes
      → as_logs ((k, v) ∷ m) ≡ as_logs m
  as_logs-raw k v bytes m ev = rw ev (unfold as_logs in refl)

  -- The indexes are increasing.
  abbrev pub Increasing : Map ℕ W → Type 0
  Increasing m = IsIncreasing m

  pub key-lt :
      (i j : ℕ) (k : Text)
      → i < stable_bound
      → j < stable_bound
      → k ≡ log_key j
      → key_ltb (log_key i) k ≡ true
      → i < j
  key-lt i j k small js ek h =
      ground (arith, ap (key_ltb (log_key i)) ek, key_ltb-log_key i j (omega arith) (omega arith))

  pub above :
      (i : ℕ) (m : Map Text (StoreValue W))
      → i < stable_bound
      → All IsEntry m
      → All (λ (j, w). key_ltb (log_key i) j ≡ true) m
      → All (λ (j, u). i < j) (as_logs m)
  above i [] small valid greater = unfold as_logs in tt
  above i ((k, v) ∷ m) small (inl (j, w, ek, js, ev), valid) (greater, rest) =
      rw (as_logs-log k v j w m ek js ev)
        (key-lt i j k small js ek greater, above i m small valid rest)
  above i ((k, v) ∷ m) small (inr (r, bytes, ek, ev), valid) (greater, rest) =
      rw (as_logs-raw k v bytes m ev) (above i m small valid rest)

  pub as_logs-Increasing :
      (m : Map Text (StoreValue W)) → All IsEntry m → Sorted m → Increasing (as_logs m)
  as_logs-Increasing [] valid sorted = unfold as_logs in tt
  as_logs-Increasing ((k, v) ∷ m) (inl (j, w, ek, js, ev), valid) (greater, sorted) =
      rw (as_logs-log k v j w m ek js ev)
        (above j m js valid (rw ek at greater), as_logs-Increasing m valid sorted)
  as_logs-Increasing ((k, v) ∷ m) (inr (r, bytes, ek, ev), valid) (greater, sorted) =
      rw (as_logs-raw k v bytes m ev) (as_logs-Increasing m valid sorted)

  pub Increasing-head : (m : Map ℕ W) → Increasing m → All (λ (j, u). head_index m ≤ j) m
  Increasing-head [] h = tt
  Increasing-head ((i, w) ∷ m) (greater, rest) = (omega arith, All-le i m greater)
    where
      All-le : (i : ℕ) (m : Map ℕ W) → All (λ (j, u). i < j) m → All (λ (j, u). i ≤ j) m
      All-le i [] h = tt
      All-le i ((j, u) ∷ m) (g, h) = (omega arith, All-le i m h)

  pub elem-above : (i : ℕ) (m : Map ℕ W) → All (λ (j, u). i < j) m → elem i (keys m) ≡ false
  unfolding elem
  elem-above i [] h = refl
  elem-above i ((j, u) ∷ m) (g, h) = ground (arith, elem-above i m h)

  pub Increasing-Distinct : (m : Map ℕ W) → Increasing m → Distinct (keys m)
  Increasing-Distinct [] h = tt
  Increasing-Distinct ((i, w) ∷ m) (greater, rest) =
      (elem-above i m greater, Increasing-Distinct m rest)
