-- ===== src/RaftStore/Bounds.antt =====
-- internal/raftstore/leveldb.go: the first and the last index.
use robustirc.RaftStore.Indexes.{
  IsEntry, as_logs, as_logs-log, as_logs-raw, Increasing, log_key-is_stable, stable-is_stable,
}
use robustirc.Base.{
  All, Option, Option-cases, [], ap, arith, inl, inr, nat_eq, none, refl, some, sym, ℕ, ◌++◌, ◌<◌,
  ◌∙◌, ◌∷◌, ◌≡◌, ◌≤◌,
}
use robustirc.Base.Assoc.{Map}
use robustirc.LogStore.{head_index}
use robustirc.RaftStore.{
  StoreValue, first_plain, from_big_endian, index_or_zero, is_stable, last_plain, log_key,
  stable_prefix,
}
use robustirc.RaftStore.Order.{from_big_endian-log_key, stable_bound}
use robustirc.Text.{Text, text_eq}
use mathlib.Core.Path.{subst}

module _ (W : Type 0) where
  -- FirstIndex is the least index.
  pub first_plain-head :
      (m : Map Text (StoreValue W))
      → All (IsEntry W) m
      → index_or_zero (first_plain m) ≡ head_index (as_logs W m)
  unfolding first_plain
  first_plain-head [] valid = unfold as_logs in refl
  first_plain-head ((k, v) ∷ m) (inl (i, w, ek, small, ev), valid) =
      rw (as_logs-log W k v i w m ek small ev, ek, log_key-is_stable i)
        (from_big_endian-log_key i (omega arith))
  first_plain-head ((k, v) ∷ m) (inr (r, bytes, ek, ev), valid) =
      rw (as_logs-raw W k v bytes m ev, ek, stable-is_stable r) (first_plain-head m valid)

  pub last_plain-later :
      (k j : Text) (v : StoreValue W) (m : Map Text (StoreValue W))
      → last_plain m ≡ some j
      → last_plain ((k, v) ∷ m) ≡ some j
  unfolding last_plain
  last_plain-later k j v m later = ground arith

  pub last_plain-alone :
      (i : ℕ) (k : Text) (v : StoreValue W) (m : Map Text (StoreValue W))
      → k ≡ log_key i
      → last_plain m ≡ none
      → last_plain ((k, v) ∷ m) ≡ some k
  unfolding last_plain
  last_plain-alone i k v m ek alone = ground (arith, ap is_stable ek, log_key-is_stable i)

  pub last_plain-raw :
      (r : Text) (k : Text) (v : StoreValue W) (m : Map Text (StoreValue W))
      → k ≡ stable_prefix ++ r
      → last_plain ((k, v) ∷ m) ≡ last_plain m
  unfolding last_plain
  last_plain-raw r k v m ek = ground (arith, ap is_stable ek, stable-is_stable r)

  -- LastIndex is one of the indexes.
  pub last_plain-All :
      (P : ℕ → Type 0) (m : Map Text (StoreValue W)) (key : Text)
      → All (IsEntry W) m
      → All (λ (j, u). P j) (as_logs W m)
      → last_plain m ≡ some key
      → P (from_big_endian key)
  last_plain-All P [] key valid all found = absurd (unfold last_plain in cc)
  last_plain-All P ((k, v) ∷ m) key (inl (i, w, ek, small, ev), valid) all found =
      let parts = rw (as_logs-log W k v i w m ek small ev) at all in
      elim (Option-cases (last_plain m)) [
        | inr (j, later) ↦
            last_plain-All P m key valid parts.1
              (later ∙ sym (last_plain-later k j v m later) ∙ found)
        | inl alone ↦
            let own : key ≡ log_key i =
              ground (arith, last_plain-alone i k v m ek alone, ek, found) in
            rw (own, from_big_endian-log_key i (omega arith)) parts.0
      ]
  last_plain-All P ((k, v) ∷ m) key (inr (r, bytes, ek, ev), valid) all found =
      last_plain-All P m key valid (rw (as_logs-raw W k v bytes m ev) at all)
        (sym (last_plain-raw r k v m ek) ∙ found)

  pub last_plain-none :
      (m : Map Text (StoreValue W)) → All (IsEntry W) m → last_plain m ≡ none → as_logs W m ≡ []
  last_plain-none [] valid h = unfold as_logs in refl
  last_plain-none ((k, v) ∷ m) (inl (i, w, ek, small, ev), valid) h =
      elim (Option-cases (last_plain m)) [
        | inl alone ↦ absurd (ground (arith, last_plain-alone i k v m ek alone, h))
        | inr (j, later) ↦ absurd (ground (arith, last_plain-later k j v m later, h))
      ]
  last_plain-none ((k, v) ∷ m) (inr (r, bytes, ek, ev), valid) h =
      as_logs-raw W k v bytes m ev ∙ last_plain-none m valid (sym (last_plain-raw r k v m ek) ∙ h)

  abbrev pub UpTo : ℕ → Map ℕ W → Type 0
  UpTo n m = All (λ (j, u). j ≤ n) m

  -- LastIndex is the greatest index.
  pub last_plain-greatest :
      (m : Map Text (StoreValue W))
      → All (IsEntry W) m
      → Increasing W (as_logs W m)
      → UpTo (index_or_zero (last_plain m)) (as_logs W m)
  last_plain-greatest [] valid inc = unfold as_logs in tt
  last_plain-greatest ((k, v) ∷ m) (inl (i, w, ek, small, ev), valid) inc =
      let parts = rw (as_logs-log W k v i w m ek small ev) at inc in
      elim (Option-cases (last_plain m)) [
        | inl alone ↦
            rw
              (
                as_logs-log W k v i w m ek small ev,
                last_plain-none m valid alone,
                last_plain-alone i k v m ek alone,
                ek,
                from_big_endian-log_key i (omega arith),
              )
              (omega arith)
        | inr (j, later) ↦
            let below : i < from_big_endian j =
              last_plain-All (λ n. i < n) m j valid parts.0 later in
            rw (as_logs-log W k v i w m ek small ev) (
              subst (λ (o : Option Text). UpTo (index_or_zero o) ((i, w) ∷ as_logs W m))
                (sym (last_plain-later k j v m later))
                (
                  omega (arith, below),
                  subst (λ (o : Option Text). UpTo (index_or_zero o) (as_logs W m)) later
                      (last_plain-greatest m valid parts.1),
                ))
      ]
  last_plain-greatest ((k, v) ∷ m) (inr (r, bytes, ek, ev), valid) inc =
      rw (as_logs-raw W k v bytes m ev, last_plain-raw r k v m ek)
        (last_plain-greatest m valid (rw (as_logs-raw W k v bytes m ev) at inc))

  pub as_logs-small :
      (m : Map Text (StoreValue W))
      → All (IsEntry W) m
      → All (λ (j, u). j < stable_bound) (as_logs W m)
  as_logs-small [] valid = unfold as_logs in tt
  as_logs-small ((k, v) ∷ m) (inl (j, w, ek, small, ev), valid) =
      rw (as_logs-log W k v j w m ek small ev) (small, as_logs-small m valid)
  as_logs-small ((k, v) ∷ m) (inr (r, bytes, ek, ev), valid) =
      rw (as_logs-raw W k v bytes m ev) (as_logs-small m valid)

  pub head-small : (n : Map ℕ W) → All (λ (j, u). j < stable_bound) n → head_index n < stable_bound
  head-small [] h = omega arith
  head-small ((j, u) ∷ n) (small, h) = small

  pub last-small :
      (m : Map Text (StoreValue W))
      → All (IsEntry W) m
      → index_or_zero (last_plain m) < stable_bound
  last-small m valid = elim (Option-cases (last_plain m)) [
    | inl alone ↦ rw alone (omega arith)
    | inr (key, found) ↦
        rw found (last_plain-All (λ j. j < stable_bound) m key valid (as_logs-small m valid) found)
  ]
