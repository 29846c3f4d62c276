-- ===== src/Tests/LevelDb.antt =====
-- A LevelDB database as a list in the order of its keys, with what the raft store relies on.
use robustirc.Base.{
  All, Bool-cases, [], arith, false, if◌then◌else◌, inl, inr, refl, some, true, ◌==◌, ◌∷◌, ◌≡◌,
}
use robustirc.Base.Assoc.{Map, delete, lookup}
use robustirc.RaftStore.{LevelDb, key_ltb}
use robustirc.RaftStore.Ranges.{IsLevelDb, Sorted}
use robustirc.Text.{Text, text_beq, text_beq_iff, text_eq}

key_ltb_trans : (a b c : Text) → key_ltb a b ≡ true → key_ltb b c ≡ true → key_ltb a c ≡ true
unfolding key_ltb
key_ltb_trans [] [] [] h g = absurd (cc h)
key_ltb_trans [] (y ∷ b) [] h g = absurd (cc g)
key_ltb_trans [] b (z ∷ c) h g = refl
key_ltb_trans (x ∷ a) [] c h g = absurd (cc h)
key_ltb_trans (x ∷ a) (y ∷ b) [] h g = absurd (cc g)
key_ltb_trans (x ∷ a) (y ∷ b) (z ∷ c) h g = ground (arith, key_ltb_trans a b c)

key_ltb-total : (a b : Text) → key_ltb a b ≡ false → (b == a) ≡ false → key_ltb b a ≡ true
unfolding key_ltb text_beq
key_ltb-total [] [] h g = cc g
key_ltb-total [] (y ∷ b) h g = absurd (cc h)
key_ltb-total (x ∷ a) [] h g = refl
key_ltb-total (x ∷ a) (y ∷ b) h g = ground (arith, key_ltb-total a b)

module _ (V : Type 0) where
  unfoldable pub put : Text → V → Map Text V → Map Text V
  put k v [] = (k, v) ∷ []
  put k v ((j, w) ∷ m) =
      let rest = put k v m in
      if key_ltb k j then (k, v) ∷ (j, w) ∷ m else if j == k then (k, v) ∷ m else (j, w) ∷ rest

  abbrev After : Text → Map Text V → Type 0
  After k = All (λ (j, w). key_ltb k j ≡ true)

  After-trans : (i k : Text) (m : Map Text V) → key_ltb i k ≡ true → After k m → After i m
  After-trans i k [] h a = tt
  After-trans i k ((j, w) ∷ m) h (b, a) = (key_ltb_trans i k j h b, After-trans i k m h a)

  After-put :
      (i k : Text) (v : V) (m : Map Text V) → key_ltb i k ≡ true → After i m → After i (put k v m)
  unfolding put
  After-put i k v [] h a = (h, tt)
  After-put i k v ((j, w) ∷ m) h (b, a) = elim (Bool-cases (key_ltb k j)) [
    | inl e ↦ rw e (h, (b, a))
    | inr e ↦ elim (Bool-cases (j == k)) [
      | inl same ↦ rw (e, same) (h, a)
      | inr other ↦ rw (e, other) (b, After-put i k v m h a)
    ]
  ]

  pub put-Sorted : (k : Text) (v : V) (m : Map Text V) → Sorted m → Sorted (put k v m)
  unfolding put
  put-Sorted k v [] s = (tt, tt)
  put-Sorted k v ((j, w) ∷ m) (a, s) = elim (Bool-cases (key_ltb k j)) [
    | inl e ↦ rw e ((e, After-trans k j m e a), (a, s))
    | inr e ↦ elim (Bool-cases (j == k)) [
      | inl same ↦ rw (e, same) (rw ((text_beq_iff j k).0 same) at a, s)
      | inr other ↦
          rw (e, other) (After-put j k v m (key_ltb-total k j e other) a, put-Sorted k v m s)
    ]
  ]

  After-delete : (i k : Text) (m : Map Text V) → After i m → After i (delete k m)
  unfolding delete
  After-delete i k [] a = tt
  After-delete i k ((j, w) ∷ m) (b, a) = elim (Bool-cases (j == k)) [
    | inl e ↦ rw e (After-delete i k m a)
    | inr e ↦ rw e (b, After-delete i k m a)
  ]

  pub delete-Sorted : (k : Text) (m : Map Text V) → Sorted m → Sorted (delete k m)
  unfolding delete
  delete-Sorted k [] s = tt
  delete-Sorted k ((j, w) ∷ m) (a, s) = elim (Bool-cases (j == k)) [
    | inl e ↦ rw e (delete-Sorted k m s)
    | inr e ↦ rw e (After-delete j k m a, delete-Sorted k m s)
  ]

  key_ltb-ne : (k j : Text) → key_ltb k j ≡ true → (j == k) ≡ false
  unfolding key_ltb text_beq
  key_ltb-ne [] [] h = absurd (cc h)
  key_ltb-ne [] (y ∷ j) h = refl
  key_ltb-ne (x ∷ k) [] h = absurd (cc h)
  key_ltb-ne (x ∷ k) (y ∷ j) h = ground (arith, key_ltb-ne k j)

  lookup-put :
      (k j : Text) (v : V) (m : Map Text V)
      → lookup j (put k v m) ≡ (if k == j then some v else lookup j m)
  unfolding lookup put
  lookup-put k j v [] = refl
  lookup-put k j v ((i, w) ∷ m) = ground (
    arith,
    lookup-put k j v m,
    key_ltb-ne k i,
    text_beq_iff k j,
    text_beq_iff i k,
    text_beq_iff i j,
  )

  abbrev pub sorted_db : LevelDb V
  sorted_db = record {
    Db = (m : Map Text V) × Sorted m;
    empty = ([], tt);
    get = λ k db. lookup k db.0;
    put = λ k v db. (put k v db.0, put-Sorted k v db.0 db.1);
    delete = λ k db. (delete k db.0, delete-Sorted k db.0 db.1);
    entries = λ db. db.0;
  }

  pub sorted_db-IsLevelDb : IsLevelDb sorted_db
  sorted_db-IsLevelDb = record {
    entries_empty = refl;
    sorted = λ db. db.1;
    get_lem = λ k db. refl;
    get-put = λ k j v db. lookup-put k j v db.0;
    entries-delete = λ k db. refl;
  }
