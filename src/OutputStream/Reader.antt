-- ===== src/OutputStream/Reader.antt =====
-- internal/outputstream/outputstream.go: what GetNext gives to a reader.
use robustirc.Base.{
  Bool-cases, List, Option, Option-cases, [], ap, arith, if◌then◌else◌, inl, inr, leb, nat_beq,
  nat_eq, none, refl, some, sym, ℕ, ◌%◌, ◌+◌, ◌<◌, ◌^◌, ◌∷◌, ◌≡◌, ◌≤◌,
}
use robustirc.OutputStream.{
  MessageBatch, Next, OutputStream, add, before_last, delete_input, find, first_from, get_next,
  key_of, last_batch, max_uint64, next_batch, poll, put, search_next, wait_at,
}
use robustirc.OutputStream.Order.{IsChained, IsStream, find_from, get_next-search_next}
use robustirc.OutputStream.Steps.{IsStream-delete_input, last-key}
use robustirc.Robust.{id_eq}
use robustirc.Run.{OutMsg}
use robustirc.Text.{text_eq}
use mathlib.Core.Option.{some-injective}
use mathlib.Core.Path.{subst}

find-put :
    (k n : ℕ) (b : MessageBatch) (db : List (ℕ × MessageBatch))
    → find n (put k b db) ≡ (if nat_beq k n then some b else find n db)
unfolding find put
find-put k n b [] = refl
find-put k n b ((j, c) ∷ db) = ground (arith, find-put k n b db)

find-last :
    (last : MessageBatch) (id : ℕ) (b : MessageBatch) (db : List (ℕ × MessageBatch))
    → IsChained last db
    → find id db ≡ some b
    → id ≤ key_of last
unfolding find
find-last last id b [] h e = elim h [ ]
find-last last id b ((j, c) ∷ []) h e = ground (arith, h.0, h.1)
find-last last id b ((j, c) ∷ (k, x) ∷ db) h e = elim (Bool-cases (nat_beq j id)) [
  | inl t ↦ ground (arith, last-key last j c ((k, x) ∷ db) h)
  | inr t ↦ find-last last id b ((k, x) ∷ db) h.3 (ground arith)
]

last_batch-chained :
    (last : MessageBatch) (db : List (ℕ × MessageBatch))
    → IsChained last db
    → last_batch db ≡ some last
unfolding last_batch
last_batch-chained last [] h = elim h [ ]
last_batch-chained last ((j, c) ∷ []) h = ap some h.1
last_batch-chained last ((j, c) ∷ (k, d) ∷ db) h = last_batch-chained last ((k, d) ∷ db) h.3

-- The batch stands in the stream above the id, and nothing stands between them.
pub record IsNext (id : ℕ) (os : OutputStream) (b : MessageBatch) : Type 0 where
  pub present : find (key_of b) os.db ≡ some b
  pub newer : id < key_of b
  pub least : (k : ℕ) (c : MessageBatch) → find k os.db ≡ some c → id < k → key_of b ≤ k

-- What GetNext owes to a reader at an id: the next batch, or to wait at the last one where no
-- batch is newer.
pub data Answers (id : ℕ) (os : OutputStream) : Next → Type 0 where
  gives : (b : MessageBatch) → IsNext id os b → Answers id os (next_batch b)
  waits :
      ((k : ℕ) (c : MessageBatch) → find k os.db ≡ some c → k ≤ id)
      → Answers id os (wait_at (some os.lastseen))

first_from-least :
    (last b : MessageBatch) (n : ℕ) (db : List (ℕ × MessageBatch))
    → IsChained last db
    → first_from n db ≡ some b
    → (find (key_of b) db ≡ some b)
      × (n ≤ key_of b)
      × ((k : ℕ) (c : MessageBatch) → find k db ≡ some c → n ≤ k → key_of b ≤ k)
unfolding find first_from
first_from-least last b n [] h e = elim h [ ]
first_from-least last b n ((j, c) ∷ []) h e =
    (ground (arith, h.0), ground (arith, h.0), λ k d f p. ground (arith, h.0, e, f))
first_from-least last b n ((j, c) ∷ (m, x) ∷ db) h e = elim (Bool-cases (leb n j)) [
  | inl t ↦
      let key : j ≡ key_of b = ground (arith, h.0, t, e) in
      (
        ground (arith, key, t, e),
        ground (arith, key, t),
        λ k d f p. omega (arith, key, find_from last k j c d ((m, x) ∷ db) h f),
      )
  | inr t ↦
      let ih = first_from-least last b n ((m, x) ∷ db) h.3 (ground (arith, t, e)) in
      (ground (arith, t, ih.0, ih.1), ih.1, λ k d f p. ih.2 k d (ground (arith, t, f, p)) p)
]

first_from-none :
    (last : MessageBatch) (n : ℕ) (db : List (ℕ × MessageBatch))
    → IsChained last db
    → first_from n db ≡ none
    → (k : ℕ) (c : MessageBatch) → find k db ≡ some c
    → k < n
unfolding find first_from
first_from-none last n [] h e k d f = elim h [ ]
first_from-none last n ((j, c) ∷ []) h e k d f = ground (arith, e, f)
first_from-none last n ((j, c) ∷ (m, x) ∷ db) h e k d f = elim (Bool-cases (nat_beq j k)) [
  | inl t ↦ ground (arith, t, e)
  | inr t ↦ first_from-none last n ((m, x) ∷ db) h.3 (ground (arith, e)) k d (ground (arith, t, f))
]

-- For every stream in order and every id below 2 ^ 64 - 1: GetNext gives the batch with the least
-- key above the id, unchanged, wherever there is one, also where the batch of the id or the
-- one that it names as the next was deleted; and it waits, at the last batch of the stream, only
-- where no key is above the id.
pub get_next-Answers :
    (os : OutputStream) (id : ℕ) → IsStream os → id < max_uint64 → Answers id os (get_next id os)
unfolding search_next
get_next-Answers os id h bound =
    let no_wrap : (id + 1) % 2 ^ 64 ≡ id + 1 = omega arith in
    subst (Answers id os) (sym (get_next-search_next os id h))
      (elim (Option-cases (first_from (id + 1) os.db)) [
        | inl e ↦
            let q : search_next id os ≡ wait_at (some os.lastseen) =
              ground (arith, no_wrap, e, last_batch-chained os.lastseen os.db h.chained) in
            subst (Answers id os) (sym q) (
              waits (λ k c f.
                let r = first_from-none os.lastseen (id + 1) os.db h.chained e k c f in
                omega arith))
        | inr (b, e) ↦
            let q : search_next id os ≡ next_batch b = ground (arith, no_wrap, e) in
            let r = first_from-least os.lastseen b (id + 1) os.db h.chained e in
            subst (Answers id os) (sym q) (
              gives b (record {
                present = r.0;
                newer = omega (arith, r.1);
                least = λ k c f p. r.2 k c f (omega arith);
              }))
      ])

waits-last :
    (id : ℕ) (os : OutputStream) (x : Next) (o : Option MessageBatch)
    → Answers id os x
    → x ≡ wait_at o
    → o ≡ some os.lastseen
waits-last id os _ o (gives b n) e = cc
waits-last id os _ o (waits n) e = cc

module _ (msg : OutMsg) (msgs : List OutMsg) (os : OutputStream) where
  abbrev new_batch : MessageBatch
  new_batch = record { first = msg; rest = msgs; next_id = max_uint64 }

  find-new : find msg.id.id (add msg msgs os).db ≡ some new_batch
  unfolding add
  find-new = ground (
    arith,
    find-put msg.id.id msg.id.id new_batch
        (put (key_of os.lastseen) (record os.lastseen { next_id = msg.id.id }) os.db),
  )

  find-old :
      key_of os.lastseen < msg.id.id
      → find (key_of os.lastseen) (add msg msgs os).db
        ≡ some (record os.lastseen { next_id = msg.id.id })
  unfolding add
  find-old lt = ground (
    arith,
    find-put msg.id.id (key_of os.lastseen) new_batch
        (put (key_of os.lastseen) (record os.lastseen { next_id = msg.id.id }) os.db),
    find-put (key_of os.lastseen) (key_of os.lastseen) (record os.lastseen { next_id = msg.id.id })
        os.db,
  )

  poll-add :
      key_of os.lastseen < msg.id.id
      → poll (key_of os.lastseen) (add msg msgs os) ≡ some (some new_batch)
  unfolding poll
  poll-add lt = ground (arith, find-old lt, find-new)

  get_next-add :
      key_of os.lastseen < msg.id.id
      → msg.id.id < max_uint64
      → get_next (key_of os.lastseen) (add msg msgs os) ≡ next_batch new_batch
  unfolding get_next
  get_next-add lt bound = ground (arith, find-old lt, find-new)

-- A reader that waits misses nothing: where GetNext waits at a batch and Add then stores a batch
-- under a larger id, the next round of the loop finds that batch, and a new call of GetNext
-- with the key of the batch that it waited at gives it too.
pub add-wakes :
    (os : OutputStream) (id : ℕ) (b : MessageBatch) (msg : OutMsg) (msgs : List OutMsg)
    → IsStream os
    → id < max_uint64
    → get_next id os ≡ wait_at (some b)
    → key_of os.lastseen < msg.id.id
    → msg.id.id < max_uint64
    → (poll (key_of b) (add msg msgs os)
        ≡ some (some (record { first = msg; rest = msgs; next_id = max_uint64 })))
      × (get_next (key_of b) (add msg msgs os)
          ≡ next_batch (record { first = msg; rest = msgs; next_id = max_uint64 }))
add-wakes os id b msg msgs h bound e lt top =
    let q = some-injective _ _ (waits-last id os _ _ (get_next-Answers os id h bound) e) in
    rw (q) (poll-add msg msgs os lt, get_next-add msg msgs os lt top)

before_last-below :
    (last b : MessageBatch) (db : List (ℕ × MessageBatch))
    → IsChained last db
    → before_last db ≡ some b
    → key_of b < key_of last
unfolding before_last
before_last-below last b [] h e = elim h [ ]
before_last-below last b ((j, c) ∷ []) h e = cc
before_last-below last b ((j, c) ∷ (k, d) ∷ []) h e = ground (arith, h.0, h.1, h.2, h.3.0, h.3.1, e)
before_last-below last b ((j, c) ∷ (k, d) ∷ (l, f) ∷ db) h e =
    before_last-below last b ((k, d) ∷ (l, f) ∷ db) h.3 e

seen-below :
    (os os' : OutputStream)
    → IsStream os
    → delete_input (key_of os.lastseen) os ≡ some os'
    → key_of os'.lastseen < key_of os.lastseen
unfolding delete_input
seen-below os os' h e = elim (Option-cases (before_last os.db)) [
  | inl f ↦ ground (arith, e, f)
  | inr (b, f) ↦ ground (arith, e, f, before_last-below os.lastseen b os.db h.chained f)
]

-- Where a reader waits at the last batch and Delete removes that batch, the next round of the loop
-- in GetNext does not find it again, and dereferences nil.
pub delete-breaks-wait :
    (os os' : OutputStream) (id : ℕ) (b : MessageBatch)
    → IsStream os
    → id < max_uint64
    → get_next id os ≡ wait_at (some b)
    → delete_input (key_of b) os ≡ some os'
    → poll (key_of b) os' ≡ none
unfolding poll
delete-breaks-wait os os' id b h bound e d =
    let q = some-injective _ _ (waits-last id os _ _ (get_next-Answers os id h bound) e) in
    let d' : delete_input (key_of os.lastseen) os ≡ some os' = rw q at d in
    let below = seen-below os os' h d' in
    elim (Option-cases (find (key_of b) os'.db)) [
      | inl f ↦ ground (arith, f)
      | inr (c, f) ↦
          let top =
            find-last os'.lastseen (key_of b) c os'.db (IsStream-delete_input _ os h d').chained
              f in
          absurd (omega (arith, top, below, ap key_of q))
    ]

-- Delete never moves lastseen up.
pub delete_input-lastseen :
    (n : ℕ) (os os' : OutputStream)
    → IsStream os
    → delete_input n os ≡ some os'
    → key_of os'.lastseen ≤ key_of os.lastseen
unfolding delete_input
delete_input-lastseen n os os' h e = elim (Bool-cases (nat_beq n (key_of os.lastseen))) [
  | inl t ↦ elim (Option-cases (before_last os.db)) [
    | inl f ↦ ground (arith, t, e, f)
    | inr (b, f) ↦ ground (arith, t, e, f, before_last-below os.lastseen b os.db h.chained f)
  ]
  | inr t ↦ ground (arith, t, e)
]
