-- ===== src/Jsondb/Fuel.antt =====
-- lsengine/internal/jsondb/shard.go, `BulkInsert`: the loop over the batches.
use lsengine_js.Base.{
  ℕ, zero, suc, ◌+◌, ◌≤◌, ◌≡◌, refl, ◌∙◌, ap, List, [], ◌∷◌, ◌++◌, arith, length, length-append,
  length-take, length-drop, take, drop, Text,
}
use lsengine_js.Jsondb.Backend.{Document, Backend, IsLawful, JsonEngine, Result, ok, err, panic}
use lsengine_js.Jsondb.Bulk.{batch_insert_size, bulk_insert_batch, bulk_loop, bulk_insert}
use lsengine_js.Jsondb.Batches.{bulk_insert_batch-stored}

bulk_insert_batch-ids :
    {b : Backend}
    → IsLawful b
    → (now base : ℕ) (c : Text) (docs : List Document) (e e' : JsonEngine b) (ids : List Text)
    → bulk_insert_batch now c docs base e ≡ (e', ok ids)
    → (length ids ≡ length docs)
bulk_insert_batch-ids {b} law now base c docs e e' ids h =
    (bulk_insert_batch-stored law now base c docs e e' ids h).0

module _ {b : Backend} (law : IsLawful b) (now : ℕ → ℕ) (c : Text) where
  bulk_loop-length :
      (fuel : ℕ) (docs : List Document) (i : ℕ) (ids : List Text) (e : JsonEngine b)
      → length docs ≤ fuel
      → (bulk_loop fuel now c docs i ids e).2 ≡ ok tt
      → length (bulk_loop fuel now c docs i ids e).1 ≡ length ids + length docs
  unfolding bulk_loop
  bulk_loop-length zero [] i ids e enough h = ground arith
  bulk_loop-length (suc fuel) [] i ids e enough h = ground arith
  bulk_loop-length zero (doc ∷ docs) i ids e enough h = absurd (omega (arith, enough))
  bulk_loop-length (suc fuel) (doc ∷ docs) i ids e enough h =
      go (bulk_insert_batch (now i) c first i e).1 refl
        (λ more f.
          bulk_loop-length fuel rest (i + batch_insert_size) more f
            (omega (arith, length-drop batch_insert_size (doc ∷ docs), enough)))
        h
    where
      first : List Document
      first = take batch_insert_size (doc ∷ docs)

      rest : List Document
      rest = drop batch_insert_size (doc ∷ docs)

      next : JsonEngine b
      next = (bulk_insert_batch (now i) c first i e).0

      after_batch : Result (List Text) → JsonEngine b × List Text × Result (Unit {0})
      after_batch answer = elim answer [
        | ok new ↦ bulk_loop fuel now c rest (i + batch_insert_size) (ids ++ new) next
        | err x ↦ (next, ids, err x)
        | panic ↦ (next, ids, panic)
      ]

      go :
          (answer : Result (List Text))
          → (bulk_insert_batch (now i) c first i e).1 ≡ answer
          → ((more : List Text) (f : JsonEngine b)
              → (bulk_loop fuel now c rest (i + batch_insert_size) more f).2 ≡ ok tt
              → length (bulk_loop fuel now c rest (i + batch_insert_size) more f).1
                ≡ length more + length rest)
          → (after_batch answer).2 ≡ ok tt
          → length (after_batch answer).1 ≡ length ids + length (doc ∷ docs)
      go panic k loop w = absurd (ground (arith, w))
      go (err x) k loop w = absurd (ground (arith, w))
      go (ok new) k loop w =
          (let same =
              bulk_insert_batch-ids law (now i) i c first e next new (ap (λ r. (next, r)) k) in
            loop (ids ++ new) next w
            ∙ omega (
              arith,
              length-append ids new,
              same,
              length-drop batch_insert_size (doc ∷ docs),
              length-take batch_insert_size (doc ∷ docs),
            ))

-- The loop over the batches ends with every document taken: an insertion that succeeds returns one identifier
-- for each document.
pub bulk_insert-length :
    {b : Backend}
    → IsLawful b
    → (now : ℕ → ℕ) (c : Text) (docs : List Document) (e : JsonEngine b)
    → (bulk_insert now c docs e).2 ≡ ok tt
    → length (bulk_insert now c docs e).1 ≡ length docs
unfolding bulk_insert
bulk_insert-length law now c docs e h =
    bulk_loop-length law now c (length docs) docs 0 [] e (omega arith) h ∙ omega arith
