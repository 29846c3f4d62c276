-- ===== src/Tests/Batch.antt =====
-- The bytes of a batch with one message for two sessions.
use robustirc.Base.{[], arith, elem, length, nat_eq, refl, some, ℕ, List, ◌++◌, ◌∷◌, ◌≡◌}
use robustirc.Examples.{id_of}
use robustirc.OutputStream.{max_uint64}
use robustirc.OutputStream.Batch.{StoredBatch, buffer_size, marshal_batch, unmarshal_batch}
use robustirc.OutputStream.Batch.RoundTrip.{IsStoredBatch, unmarshal-marshal_batch}
use robustirc.Text.{text}

abbrev batch : StoredBatch
batch = record {
  messages = record { id = id_of 300; payload = text "PING"; interesting_for = 1 ∷ 2 ∷ [] } ∷ [];
  next_id = max_uint64;
}

batch-IsStoredBatch : IsStoredBatch batch
unfolding elem text
batch-IsStoredBatch = record {
  next_fits = omega arith;
  count_fits = omega arith;
  each = (
    (
      omega arith,
      omega arith,
      omega arith,
      omega arith,
      (omega arith, (omega arith, tt)),
      (refl, (refl, tt)),
    ),
    tt,
  );
}

unmarshal-marshal_batch_example :
    (bytes : List ℕ) × (marshal_batch batch ≡ some bytes)
    × (length bytes ≡ buffer_size batch)
    × (unmarshal_batch (bytes ++ 0 ∷ []) ≡ some batch)
unmarshal-marshal_batch_example = unmarshal-marshal_batch batch (0 ∷ []) batch-IsStoredBatch
