-- ===== src/OutputStream/Steps.antt =====
-- internal/outputstream/outputstream.go: Add and Delete keep the order of the stream, and what a
-- reader gets from it.
use robustirc.Base.{
  Bool-cases, List, Option-cases, [], ap, arith, inl, inr, nat_beq, refl, some, sym, ℕ, ◌<◌, ◌∙◌,
  ◌∷◌, ◌≡◌, ◌≢◌, ◌≤◌,
}
use robustirc.OutputStream.{
  MessageBatch, OutputStream, add, before_last, del, delete_input, key_of, max_uint64,
  new_output_stream, put,
}
use robustirc.OutputStream.Order.{IsChained, IsChained-bound, IsStream}
use robustirc.Run.{OutMsg}
use native.Mathlib.Decide.{ℕ_discrete}
use mathlib.Core.Path.{subst}
use mathlib.Core.Option.{some-injective}

pub last-key :
    (last : MessageBatch) (j : ℕ) (c : MessageBatch) (db : List (ℕ × MessageBatch))
    → IsChained last ((j, c) ∷ db)
    → j ≤ key_of last
last-key last j c [] h = ground (arith, h.0, h.1)
last-key last j c ((k, d) ∷ db) h = omega (arith, h.1, h.2, last-key last k d db h.3)

put-skip :
    (n j : ℕ) (b c : MessageBatch) (db : List (ℕ × MessageBatch))
    → j < n
    → put n b ((j, c) ∷ db) ≡ (j, c) ∷ put n b db
unfolding put
put-skip n j b c db h = ground arith

del-skip :
    (n j : ℕ) (c : MessageBatch) (db : List (ℕ × MessageBatch))
    → j ≢ n
    → del n ((j, c) ∷ db) ≡ (j, c) ∷ del n db
unfolding del
del-skip n j c db h = ground arith

put-same :
    (n j : ℕ) (b c : MessageBatch) (db : List (ℕ × MessageBatch))
    → j ≡ n
    → put n b ((j, c) ∷ db) ≡ (n, b) ∷ db
unfolding put
put-same n j b c db h = ground arith

put-end : (n : ℕ) (b : MessageBatch) → put n b [] ≡ (n, b) ∷ []
unfolding put
put-end n b = refl

del-same :
    (n j : ℕ) (c : MessageBatch) (db : List (ℕ × MessageBatch)) → j ≡ n → del n ((j, c) ∷ db) ≡ db
unfolding del
del-same n j c db h = ground arith

del-end : (n : ℕ) → del n [] ≡ []
unfolding del
del-end n = refl

-- The last batch gets its next_id, and the new one stands behind it.
module _ (last batch : MessageBatch) (lt : key_of last < key_of batch)
    (bound : key_of batch < max_uint64) (fresh : batch.next_id ≡ max_uint64) where
  seen : MessageBatch
  seen = record last { next_id = key_of batch }

  IsChained-put :
      (db : List (ℕ × MessageBatch))
      → IsChained last db
      → IsChained batch (put (key_of batch) batch (put (key_of last) seen db))
  unfolding seen
  IsChained-put [] h = elim h [ ]
  IsChained-put ((j, c) ∷ []) h =
      rw
        (
          put-same (key_of last) j seen c [] (h.0 ∙ ap key_of h.1),
          put-skip (key_of batch) (key_of last) batch seen [] lt,
          put-end (key_of batch) batch,
        )
        (refl, lt, omega arith, (refl, refl, fresh, bound))
  IsChained-put ((j, c) ∷ (k, d) ∷ []) h =
      let e = h.3.0 ∙ ap key_of h.3.1 in
      rw
        (
          put-skip (key_of last) j seen c ((k, d) ∷ []) (omega (arith, h.1, h.2, e)),
          put-same (key_of last) k seen d [] e,
          put-skip (key_of batch) j batch c ((key_of last, seen) ∷ [])
              (omega (arith, lt, h.1, h.2, e)),
          put-skip (key_of batch) (key_of last) batch seen [] lt,
          put-end (key_of batch) batch,
        )
        (h.0, h.1, omega (arith, h.2, e), (refl, lt, omega arith, (refl, refl, fresh, bound)))
  IsChained-put ((j, c) ∷ (k, d) ∷ (l, f) ∷ db) h =
      let ih = IsChained-put ((k, d) ∷ (l, f) ∷ db) h.3 in
      let low = last-key last l f db h.3.3 in
      let rest = put (key_of last) seen ((l, f) ∷ db) in
      let skip_k =
        put-skip (key_of last) k seen d ((l, f) ∷ db) (omega (arith, h.3.1, h.3.2, low)) in
      let skip_k' = put-skip (key_of batch) k batch d rest (omega (arith, lt, h.3.1, h.3.2, low)) in
      rw
        (
          put-skip (key_of last) j seen c ((k, d) ∷ (l, f) ∷ db)
              (omega (arith, h.1, h.2, h.3.1, h.3.2, low)),
          skip_k,
          put-skip (key_of batch) j batch c ((k, d) ∷ rest)
              (omega (arith, lt, h.1, h.2, h.3.1, h.3.2, low)),
          skip_k',
        )
        (h.0, h.1, h.2, rw (skip_k, skip_k') at ih)

IsChained-del :
    (last : MessageBatch) (n : ℕ) (db : List (ℕ × MessageBatch))
    → IsChained last db
    → n ≢ key_of last
    → IsChained last (del n db)
IsChained-del last n [] h ne = elim h [ ]
IsChained-del last n ((j, c) ∷ []) h ne =
    rw (del-skip n j c [] (λ e. ne (sym e ∙ h.0 ∙ ap key_of h.1)), del-end n) h
IsChained-del last n ((j, c) ∷ (k, d) ∷ []) h ne =
    let ne_k : k ≢ n = λ e. ne (sym e ∙ h.3.0 ∙ ap key_of h.3.1) in
    elim (ℕ_discrete j n) [
      | yes e ↦ rw (del-same n j c ((k, d) ∷ []) e) h.3
      | no n_j ↦ rw (del-skip n j c ((k, d) ∷ []) n_j, del-skip n k d [] ne_k, del-end n) h
    ]
IsChained-del last n ((j, c) ∷ (k, d) ∷ (l, f) ∷ db) h ne = elim (ℕ_discrete j n) [
  | yes e ↦ rw (del-same n j c ((k, d) ∷ (l, f) ∷ db) e) h.3
  | no n_j ↦ elim (ℕ_discrete k n) [
    | yes e ↦
        rw (del-skip n j c ((k, d) ∷ (l, f) ∷ db) n_j, del-same n k d ((l, f) ∷ db) e)
          (h.0, h.1, omega (arith, h.2, h.3.1, h.3.2), h.3.3)
    | no n_k ↦
        let ih = IsChained-del last n ((k, d) ∷ (l, f) ∷ db) h.3 ne in
        rw (del-skip n j c ((k, d) ∷ (l, f) ∷ db) n_j, del-skip n k d ((l, f) ∷ db) n_k)
          (h.0, h.1, h.2, rw (del-skip n k d ((l, f) ∷ db) n_k) at ih)
  ]
]

before_last-key :
    (last b : MessageBatch) (j : ℕ) (c : MessageBatch) (db : List (ℕ × MessageBatch))
    → IsChained last ((j, c) ∷ db)
    → before_last ((j, c) ∷ db) ≡ some b
    → j ≤ key_of b
unfolding before_last
before_last-key last b j c [] h e = cc
before_last-key last b j c ((k, d) ∷ []) h e = ground (arith, h.0, e)
before_last-key last b j c ((k, d) ∷ (l, f) ∷ db) h e =
    omega (arith, h.1, h.2, before_last-key last b k d ((l, f) ∷ db) h.3 e)

-- The last entry goes, and the one before it becomes the last.
abbrev without_next : MessageBatch → MessageBatch
without_next b = record b { next_id = max_uint64 }

IsChained-two :
    (last c d : MessageBatch) (j k : ℕ)
    → IsChained last ((j, c) ∷ (k, d) ∷ [])
    → del (key_of last) (put (key_of c) (without_next c) ((j, c) ∷ (k, d) ∷ []))
      ≡ (key_of c, without_next c) ∷ []
IsChained-two last c d j k h =
    let e = h.3.0 ∙ ap key_of h.3.1 in
    rw
      (
        put-same (key_of c) j (without_next c) c ((k, d) ∷ []) h.0,
        del-skip (key_of last) (key_of c) (without_next c) ((k, d) ∷ [])
            (λ q. omega (arith, q, e, h.0, h.1, h.2)),
        del-same (key_of last) k d [] e,
      )
      refl

IsChained-before_last :
    (last b : MessageBatch) (db : List (ℕ × MessageBatch))
    → IsChained last db
    → before_last db ≡ some b
    → IsChained (without_next b) (del (key_of last) (put (key_of b) (without_next b) db))
unfolding before_last
IsChained-before_last last b [] h e = elim h [ ]
IsChained-before_last last b ((j, c) ∷ []) h e = cc
IsChained-before_last last b ((j, c) ∷ (k, d) ∷ []) h e =
    subst
      (λ (b : MessageBatch).
        IsChained (without_next b)
          (del (key_of last) (put (key_of b) (without_next b) ((j, c) ∷ (k, d) ∷ []))))
      (some-injective _ _ e)
      (rw (IsChained-two last c d j k h)
        (refl, refl, refl, omega (arith, h.0, h.1, h.2, IsChained-bound last k d [] h.3)))
IsChained-before_last last b ((j, c) ∷ (k, d) ∷ (l, f) ∷ []) h e =
    subst
      (λ (b : MessageBatch).
        IsChained (without_next b)
          (del (key_of last) (put (key_of b) (without_next b) ((j, c) ∷ (k, d) ∷ (l, f) ∷ []))))
      (some-injective _ _ e)
      (rw
        (
          put-skip (key_of d) j (without_next d) c ((k, d) ∷ (l, f) ∷ [])
              (omega (arith, h.1, h.2, h.3.0)),
          del-skip (key_of last) j c (put (key_of d) (without_next d) ((k, d) ∷ (l, f) ∷ []))
              (λ q. omega (arith, q, h.1, h.2, h.3.1, h.3.2, last-key last l f [] h.3.3)),
          IsChained-two last d f k l h.3,
        )
        (
          h.0,
          h.1,
          omega (arith, h.2, h.3.0),
          (refl, refl, refl, omega (arith, h.3.0, h.3.1, h.3.2, IsChained-bound last l f [] h.3.3)),
        ))
IsChained-before_last last b ((j, c) ∷ (k, d) ∷ (l, f) ∷ (m, g) ∷ db) h e =
    let ih = IsChained-before_last last b ((k, d) ∷ (l, f) ∷ (m, g) ∷ db) h.3 e in
    let low = before_last-key last b l f ((m, g) ∷ db) h.3.3 e in
    let top = last-key last l f ((m, g) ∷ db) h.3.3 in
    let rest = put (key_of b) (without_next b) ((l, f) ∷ (m, g) ∷ db) in
    let skip_k =
      put-skip (key_of b) k (without_next b) d ((l, f) ∷ (m, g) ∷ db)
        (omega (arith, h.3.1, h.3.2, low)) in
    let del_k = del-skip (key_of last) k d rest (λ q. omega (arith, q, h.3.1, h.3.2, top)) in
    rw
      (
        put-skip (key_of b) j (without_next b) c ((k, d) ∷ (l, f) ∷ (m, g) ∷ db)
            (omega (arith, h.1, h.2, h.3.1, h.3.2, low)),
        skip_k,
        del-skip (key_of last) j c ((k, d) ∷ rest)
            (λ q. omega (arith, q, h.1, h.2, h.3.1, h.3.2, top)),
        del_k,
      )
      (h.0, h.1, h.2, rw (skip_k, del_k) at ih)

pub IsStream-new : IsStream new_output_stream
unfolding new_output_stream
IsStream-new = record { chained = (refl, refl, refl, omega arith) }

pub IsStream-add :
    (msg : OutMsg) (msgs : List OutMsg) (os : OutputStream)
    → IsStream os
    → key_of os.lastseen < msg.id.id
    → msg.id.id < max_uint64
    → IsStream (add msg msgs os)
unfolding add seen
IsStream-add msg msgs os h lt bound = record {
  chained =
      IsChained-put os.lastseen (record { first = msg; rest = msgs; next_id = max_uint64 }) lt bound
        refl os.db h.chained;
}

pub IsStream-delete_input :
    (n : ℕ) (os : OutputStream) {os' : OutputStream}
    → IsStream os
    → delete_input n os ≡ some os'
    → IsStream os'
unfolding delete_input
IsStream-delete_input n os h e = elim (Bool-cases (nat_beq n (key_of os.lastseen))) [
  | inl t ↦ elim (Option-cases (before_last os.db)) [
    | inl f ↦ ground (arith, t, e, f)
    | inr (b, f) ↦
        let q = IsChained-before_last os.lastseen b os.db h.chained f in
        subst IsStream (some-injective _ _ (ground (arith, t, e, f))) (record { chained = q })
  ]
  | inr t ↦
      let q = IsChained-del os.lastseen n os.db h.chained (λ r. ground (arith, r, t)) in
      subst IsStream (some-injective _ _ (ground (arith, t, e))) (record { chained = q })
]

-- What the program does with a stream: it adds batches under growing ids, and deletes others.
pub data Step : OutputStream → OutputStream → Type 0 where
  added :
      (msg : OutMsg) (msgs : List OutMsg) (os : OutputStream)
      → key_of os.lastseen < msg.id.id
      → msg.id.id < max_uint64
      → Step os (add msg msgs os)
  deleted : (n : ℕ) (os os' : OutputStream) → delete_input n os ≡ some os' → Step os os'

pub data Reachable : OutputStream → Type 0 where
  initial : Reachable new_output_stream
  after : (os os' : OutputStream) → Reachable os → Step os os' → Reachable os'

IsStream-Step : (os os' : OutputStream) → IsStream os → Step os os' → IsStream os'
IsStream-Step os os' h (added msg msgs _ lt bound) = IsStream-add msg msgs os h lt bound
IsStream-Step os os' h (deleted n _ _ e) = IsStream-delete_input n os h e

-- Every stream that Add, with growing ids below 2 ^ 64 - 1, and Delete make from a new one is in
-- order.
pub Reachable-IsStream : (os : OutputStream) → Reachable os → IsStream os
Reachable-IsStream os initial = IsStream-new
Reachable-IsStream os (after os₀ _ r step) = IsStream-Step os₀ os (Reachable-IsStream os₀ r) step
