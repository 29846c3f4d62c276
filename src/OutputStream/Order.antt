-- ===== src/OutputStream/Order.antt =====
-- internal/outputstream/outputstream.go: how the entries of the database hang together.
use robustirc.Base.{
  Bool-cases, List, Option-cases, [], arith, false, inl, inr, ltb, nat_beq, none, some, ℕ, ◌%◌, ◌+◌,
  ◌<◌, ◌^◌, ◌∷◌, ◌≡◌, ◌≤◌,
}
use robustirc.OutputStream.{
  MessageBatch, OutputStream, find, first_from, get_next, key_of, last_batch, max_uint64,
  search_next,
}
use native.Mathlib.Decide.{dec_le}

-- Every entry stands at the id of its messages, and its next_id is above it and at most the key of
-- the next entry. The last entry is `last`, below 2 ^ 64 - 1, and has no next_id yet.
abbrev pub IsChained : MessageBatch → List (ℕ × MessageBatch) → Type 0
IsChained last [] = ⊥
IsChained last ((j, c) ∷ []) =
    (j ≡ key_of c) × (c ≡ last) × (c.next_id ≡ max_uint64) × (j < max_uint64)
IsChained last ((j, c) ∷ (k, d) ∷ db) =
    (j ≡ key_of c) × (j < c.next_id) × (c.next_id ≤ k) × IsChained last ((k, d) ∷ db)

-- The state that the operations of the stream keep.
pub record IsStream (os : OutputStream) : Type 0 where
  pub chained : IsChained os.lastseen os.db

pub IsChained-bound :
    (last : MessageBatch) (j : ℕ) (c : MessageBatch) (db : List (ℕ × MessageBatch))
    → IsChained last ((j, c) ∷ db)
    → j < max_uint64
IsChained-bound last j c [] h = h.3
IsChained-bound last j c ((k, d) ∷ db) h = omega (arith, h.1, h.2, IsChained-bound last k d db h.3)

-- Nothing is found below the first key.
pub find_below :
    (last : MessageBatch) (id j : ℕ) (c : MessageBatch) (db : List (ℕ × MessageBatch))
    → IsChained last ((j, c) ∷ db)
    → id < j
    → find id ((j, c) ∷ db) ≡ none
unfolding find
find_below last id j c [] h below = ground arith
find_below last id j c ((k, d) ∷ db) h below =
    let e = find_below last id k d db h.3 (omega (arith, h.1, h.2)) in ground (arith, e)

-- What is found stands at the key or above the first key.
pub find_from :
    (last : MessageBatch) (id j : ℕ) (c b : MessageBatch) (db : List (ℕ × MessageBatch))
    → IsChained last ((j, c) ∷ db)
    → find id ((j, c) ∷ db) ≡ some b
    → j ≤ id
find_from last id j c b db h e = elim (dec_le j id) [
  | yes p ↦ p
  | no n ↦ let q = find_below last id j c db h (omega arith) in cc
]

-- The next_id of what is found is above its key.
find-next_id :
    (last : MessageBatch) (id : ℕ) (b : MessageBatch) (db : List (ℕ × MessageBatch))
    → IsChained last db
    → find id db ≡ some b
    → id < b.next_id
unfolding find
find-next_id last id b [] h e = elim h [ ]
find-next_id last id b ((j, c) ∷ []) h e = ground (arith, h.2, h.3)
find-next_id last id b ((j, c) ∷ (k, x) ∷ db) h e = elim (Bool-cases (nat_beq j id)) [
  | inl t ↦ ground (arith, h.1)
  | inr t ↦ find-next_id last id b ((k, x) ∷ db) h.3 (ground arith)
]

-- The entry that GetNext finds through next_id is the first one above the id.
pub next-first_from :
    (last b d : MessageBatch) (id : ℕ) (db : List (ℕ × MessageBatch))
    → IsChained last db
    → find id db ≡ some b
    → find b.next_id db ≡ some d
    → first_from (id + 1) db ≡ some d
unfolding find first_from
next-first_from last b d id [] h e f = elim h [ ]
next-first_from last b d id ((j, c) ∷ []) h e f = ground (arith, h.2, h.3)
next-first_from last b d id ((j, c) ∷ (k, x) ∷ db) h e f = elim (Bool-cases (nat_beq j id)) [
  | inl t ↦ elim (dec_le k c.next_id) [
    | yes p ↦ ground (arith, h.1, h.2)
    | no n ↦
        let q = find_below last c.next_id k x db h.3 (omega arith) in ground (arith, h.1, h.2, q)
  ]
  | inr t ↦
      let e' : find id ((k, x) ∷ db) ≡ some b = ground arith in
      let low = find_from last id k x b db h.3 e' in
      let up = find-next_id last id b ((k, x) ∷ db) h.3 e' in
      let f' : find b.next_id ((k, x) ∷ db) ≡ some d = ground (arith, h.1, h.2) in
      let ih = next-first_from last b d id ((k, x) ∷ db) h.3 e' f' in ground (arith, h.1, h.2, ih)
]

-- An entry that has no next_id yet is the last one.
pub last-first_from :
    (last b : MessageBatch) (id : ℕ) (db : List (ℕ × MessageBatch))
    → IsChained last db
    → find id db ≡ some b
    → ltb b.next_id max_uint64 ≡ false
    → (first_from (id + 1) db ≡ none) × (last_batch db ≡ some b)
unfolding find first_from last_batch
last-first_from last b id [] h e f = elim h [ ]
last-first_from last b id ((j, c) ∷ []) h e f = (ground arith, ground arith)
last-first_from last b id ((j, c) ∷ (k, x) ∷ db) h e f = elim (Bool-cases (nat_beq j id)) [
  | inl t ↦
      let bound = IsChained-bound last k x db h.3 in
      (ground (arith, h.2, bound), ground (arith, h.2, bound))
  | inr t ↦
      let e' : find id ((k, x) ∷ db) ≡ some b = ground arith in
      let low = find_from last id k x b db h.3 e' in
      let ih = last-first_from last b id ((k, x) ∷ db) h.3 e' f in
      (ground (arith, h.1, h.2, ih.0), ih.1)
]

find-bound :
    (last : MessageBatch) (id : ℕ) (b : MessageBatch) (db : List (ℕ × MessageBatch))
    → IsChained last db
    → find id db ≡ some b
    → id < max_uint64
unfolding find
find-bound last id b [] h e = elim h [ ]
find-bound last id b ((j, c) ∷ []) h e = ground (arith, h.3)
find-bound last id b ((j, c) ∷ (k, x) ∷ db) h e = elim (Bool-cases (nat_beq j id)) [
  | inl t ↦ ground (arith, IsChained-bound last j c ((k, x) ∷ db) h)
  | inr t ↦ find-bound last id b ((k, x) ∷ db) h.3 (ground arith)
]

-- For every stream that the operations keep and every id, the next_id of the batches is only a
-- short cut: GetNext gives what the search of the database for the first newer key gives, and
-- where it waits, it waits at the last batch of the database.
pub get_next-search_next :
    (os : OutputStream) (id : ℕ) → IsStream os → get_next id os ≡ search_next id os
unfolding get_next search_next
get_next-search_next os id h = elim (Option-cases (find id os.db)) [
  | inl e ↦ ground (arith, e)
  | inr (b, e) ↦
      let bound = find-bound os.lastseen id b os.db h.chained e in
      let no_wrap : (id + 1) % 2 ^ 64 ≡ id + 1 = omega arith in
      elim (Bool-cases (ltb b.next_id max_uint64)) [
        | inl t ↦ elim (Option-cases (find b.next_id os.db)) [
          | inl f ↦ ground (arith, e, t, f)
          | inr (d, f) ↦
              let q = next-first_from os.lastseen b d id os.db h.chained e f in
              ground (arith, e, t, f, no_wrap, q)
        ]
        | inr t ↦
            let q = last-first_from os.lastseen b id os.db h.chained e t in
            ground (arith, e, t, no_wrap, q.0, q.1)
      ]
]
