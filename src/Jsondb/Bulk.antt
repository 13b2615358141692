-- ===== src/Jsondb/Bulk.antt =====
-- lsengine/internal/jsondb/shard.go: `BulkInsert` and the shards. The time of a batch is an argument.
use lsengine_js.Base.{
  ℕ, zero, suc, ◌+◌, Bool, true, false, ◌&&◌, Option, none, some, List, [], ◌∷◌, ◌++◌,
  if◌then◌else◌, ltb, ◌==◌, length, take, drop, get_elem?, Text, ℤ, pos, negsuc,
}
use lsengine_js.Jsondb.Backend.{
  Document, Row, JsonCollection, Backend, JsonEngine, database_error, Result, ok, err, panic,
}
use lsengine_js.Jsondb.Engine.{get_shard, get_collection, document_id, enqueue}

-- `JSONShardManager.GetShard`; a negative index is out of range.
unfoldable pub shard_at {ℓ} : {A : Type ℓ} → List A → ℤ → Option A
shard_at shards (pos n) = get_elem? shards n
shard_at shards (negsuc n) = none

abbrev pub batch_insert_size : ℕ
batch_insert_size = 500

-- The rows of a batch, numbered from `base` on.
unfoldable pub bulk_rows : (Document → Text) → ℕ → Text → ℕ → List Document → List Row
unfolding document_id
bulk_rows marshal now collection base [] = []
bulk_rows marshal now collection base (doc ∷ docs) =
    record {
      id = document_id collection now base;
      collection = collection;
      body = marshal doc;
      created_at = now;
      updated_at = now;
    }
    ∷ bulk_rows marshal now collection (suc base) docs

abbrev pub ids_of : List Row → List Text
ids_of [] = []
ids_of (r ∷ rows) = r.id ∷ ids_of rows

-- a transaction that is committed, or rolled back with an error
abbrev pub written : {S : Type 0} → S → Option S → List S × Bool → List S × Bool
written s none (shards, fine) = (s ∷ shards, false)
written s (some t) (shards, fine) = (t ∷ shards, fine)

module _ {b : Backend} where
  -- `shardBatches[i]`
  unfoldable pub rows_for : JsonEngine b → Text → ℕ → List Row → List Row
  unfolding get_shard
  rows_for e c i [] = []
  rows_for e c i (r ∷ rows) =
      if get_shard e r.id c == i then r ∷ rows_for e c i rows else rows_for e c i rows

  -- Every shard of a row is there; `je.shards[sid]` panics otherwise.
  unfoldable pub all_placed : JsonEngine b → Text → List Row → Bool
  unfolding get_shard
  all_placed e c [] = true
  all_placed e c (r ∷ rows) = ltb (get_shard e r.id c) (length e.shards) && all_placed e c rows

  -- The goroutines, each of which writes its own shard; and whether all were committed.
  unfoldable pub write_batches :
      JsonEngine b → Text → List Row → ℕ → List b.Shard → List b.Shard × Bool
  unfolding rows_for
  write_batches e c rows i [] = ([], true)
  write_batches e c rows i (s ∷ shards) =
      let rest = write_batches e c rows (suc i) shards in
      elim (rows_for e c i rows) [
        | [] ↦ written s (some s) rest
        | r ∷ rs ↦ written s (b.replace_rows (r ∷ rs) s) rest
      ]

  unfoldable pub write_rows : ℕ → Text → List Row → JsonEngine b → JsonEngine b × Result (List Text)
  unfolding all_placed write_batches
  write_rows now c rows e =
      let (shards, fine) = write_batches e c rows 0 e.shards in
      if all_placed e c rows
      then (if fine
          then (
            enqueue (record { collection = c; delta = pos (length rows); at = now })
                (record e { shards = shards }),
            ok (ids_of rows),
          )
          else (record e { shards = shards }, err database_error))
      else (e, panic)

  abbrev pub write_loaded :
      ℕ → Text → List Row → JsonEngine b × Result JsonCollection → JsonEngine b × Result (List Text)
  write_loaded now c rows (e, ok col) = write_rows now c rows e
  write_loaded now c rows (e, err x) = (e, err x)
  write_loaded now c rows (e, panic) = (e, panic)

  unfoldable pub bulk_insert_batch :
      ℕ → Text → List Document → ℕ → JsonEngine b → JsonEngine b × Result (List Text)
  unfolding get_collection bulk_rows write_rows
  bulk_insert_batch now c docs base e =
      write_loaded now c (bulk_rows b.marshal now c base docs) (get_collection c e)

  -- The loop over the batches, with fuel for their number: the identifiers so far, and how it ended. `now` is
  -- the time at which the batch that begins at an index is written.
  unfoldable pub bulk_loop :
      ℕ
      → (ℕ → ℕ)
      → Text
      → List Document
      → ℕ
      → List Text
      → JsonEngine b
      → JsonEngine b × List Text × Result (Unit {0})
  unfolding bulk_insert_batch
  bulk_loop fuel now c [] i ids e = (e, ids, ok tt)
  bulk_loop zero now c (doc ∷ docs) i ids e = (e, ids, ok tt)
  bulk_loop (suc fuel) now c (doc ∷ docs) i ids e =
      let (e', answer) = bulk_insert_batch (now i) c (take batch_insert_size (doc ∷ docs)) i e in
      elim answer [
        | ok new ↦
            bulk_loop fuel now c (drop batch_insert_size (doc ∷ docs)) (i + batch_insert_size)
              (ids ++ new) e'
        | err x ↦ (e', ids, err x)
        | panic ↦ (e', ids, panic)
      ]

  unfoldable pub bulk_insert :
      (ℕ → ℕ) → Text → List Document → JsonEngine b → JsonEngine b × List Text × Result (Unit {0})
  unfolding bulk_loop
  bulk_insert now c docs e = bulk_loop (length docs) now c docs 0 [] e
