-- ===== src/Jsondb/Batches.antt =====
-- lsengine/internal/jsondb/shard.go: what a batch stores.
use mathlib.Core.Option.{some-injective}
use lsengine_js.Base.{
  ℕ, zero, suc, ◌+◌, ◌<◌, ◌≡◌, ◌≢◌, refl, sym, ◌∙◌, ap, subst, inl, inr, true, Option, none, some,
  List, [], ◌∷◌, ◌++◌, arith, ltb, length, get_elem?, get_elem?_below, All, Bool-cases,
  Option-cases, Text, pos,
}
use lsengine_js.Jsondb.Backend.{
  Document, Row, JsonCollection, Backend, replaced, IsLawful, JsonEngine, Result, ok, err, panic,
}
use lsengine_js.Jsondb.Engine.{get_shard, get_collection, document_id}
use lsengine_js.Jsondb.Change.{stored}
use lsengine_js.Jsondb.Insertion.{get_collection-shards, stored_same, new_row}
use lsengine_js.Jsondb.Written.{
  Lacks, replaced-Lacks, replaced-bulk_rows, replaced-rows_for, rows_for-Lacks, At,
  write_batches-At,
}
use lsengine_js.Jsondb.Bulk.{
  bulk_rows, ids_of, rows_for, all_placed, write_batches, write_rows, write_loaded,
  bulk_insert_batch,
}

-- What was stored is replaced by the rows of the batch, in the shards that are there.
module _ {b : Backend} (law : IsLawful b) (e e' : JsonEngine b) (c : Text) (rows : List Row)
    (fine : (write_batches e c rows 0 e.shards).1 ≡ true)
    (shards : e'.shards ≡ (write_batches e c rows 0 e.shards).0)
    (same : e'.shard_count ≡ e.shard_count) where
  same_shard :
      (d id : Text)
      → get_elem? e'.shards (get_shard e' id d)
        ≡ get_elem? (write_batches e c rows 0 e.shards).0 (get_shard e id d)
  unfolding get_shard
  same_shard d id = rw (same, shards) refl

  stored_batch :
      (d id : Text) (s : b.Shard)
      → get_elem? e.shards (get_shard e id d) ≡ some s
      → stored e' d id ≡ replaced id (rows_for e c (get_shard e id d) rows) (stored e d id)
  unfolding stored At
  stored_batch d id s k =
      (let (gone, kept) = write_batches-At law e c rows e.shards 0 (get_shard e id d) fine in
        let (t, at, row) = kept s k in
        rw (stored, same_shard d id, at, k)
          (row id ∙ ap (λ j. replaced id (rows_for e c j rows) (b.row s id)) (omega arith)))

  stored_none :
      (d id : Text) → get_elem? e.shards (get_shard e id d) ≡ none → stored e' d id ≡ stored e d id
  unfolding stored At
  stored_none d id k =
      (let (gone, kept) = write_batches-At law e c rows e.shards 0 (get_shard e id d) fine in
        rw (stored, same_shard d id, gone k, k) refl)

  -- What no row of the batch has the identifier of is as it was.
  stored_other : (d id : Text) → Lacks id rows → stored e' d id ≡ stored e d id
  stored_other d id h = elim (Option-cases (get_elem? e.shards (get_shard e id d))) [
    | inl k ↦ stored_none d id k
    | inr (s, k) ↦
        stored_batch d id s k
        ∙ replaced-Lacks id (rows_for e c (get_shard e id d) rows) _
            (rows_for-Lacks law e c rows id (get_shard e id d) rows h)
  ]

  -- The row of an identifier of the batch is stored.
  stored_row :
      (r : Row)
      → ((old : Option Row) → replaced r.id rows old ≡ some r)
      → ltb (get_shard e r.id c) (length e.shards) ≡ true
      → stored e' c r.id ≡ some r
  stored_row r h there =
      (let (s, k) = get_elem?_below e.shards (get_shard e r.id c) (ground (arith, there)) in
        stored_batch c r.id s k ∙ replaced-rows_for law e c rows r.id rows _ ∙ h _)

  stored_rows :
      (rs : List Row)
      → All (λ r. (old : Option Row) → replaced r.id rows old ≡ some r) rs
      → all_placed e c rs ≡ true
      → All (λ r. stored e' c r.id ≡ some r) rs
  unfolding all_placed
  stored_rows [] h there = tt
  stored_rows (r ∷ rs) h there =
      (stored_row r h.0 (ground (arith, there)), stored_rows rs h.1 (ground (arith, there)))

-- Everything that a batch changes, where it succeeds.
record IsWritten {b : Backend} (now : ℕ) (e e' : JsonEngine b) (c : Text) (rows : List Row)
    (ids : List Text) : Type 0 where
  fine : (write_batches e c rows 0 e.shards).1 ≡ true
  placed : all_placed e c rows ≡ true
  shards : e'.shards ≡ (write_batches e c rows 0 e.shards).0
  count : e'.shard_count ≡ e.shard_count
  answer : ids ≡ ids_of rows
  pending :
      e'.pending
      ≡ e.pending ++ (record { collection = c; delta = pos (length rows); at = now } ∷ [])

module _ {b : Backend} (now : ℕ) (c : Text) (rows : List Row) where
  write_rows_inversion :
      (e e' : JsonEngine b) (ids : List Text)
      → write_rows now c rows e ≡ (e', ok ids)
      → IsWritten now e e' c rows ids
  unfolding write_rows
  write_rows_inversion e e' ids h = elim (Bool-cases (all_placed e c rows)) [
    | inl p ↦ elim (Bool-cases (write_batches e c rows 0 e.shards).1) [
      | inl f ↦ record {
        fine = f;
        placed = p;
        shards = ground (arith, p, f, h);
        count = ground (arith, p, f, h);
        answer = ground (arith, p, f, h);
        pending = ground (arith, p, f, h);
      }
      | inr f ↦ absurd (ground (arith, p, f, h))
    ]
    | inr p ↦ absurd (ground (arith, p, h))
  ]

bulk_insert_batch-rows :
    {b : Backend}
    → IsLawful b
    → (now base : ℕ) (c : Text) (docs : List Document) (e e' : JsonEngine b) (ids : List Text)
    → bulk_insert_batch now c docs base e ≡ (e', ok ids)
    → (ids ≡ ids_of (bulk_rows b.marshal now c base docs))
      × All (λ r. stored e' c r.id ≡ some r) (bulk_rows b.marshal now c base docs)
      × ((d q : Text)
          → Lacks q (bulk_rows b.marshal now c base docs)
          → stored e' d q ≡ stored e d q)
      × (e'.pending
          ≡ e.pending
            ++ (record {
              collection = c;
              delta = pos (length (bulk_rows b.marshal now c base docs));
              at = now;
            }
                ∷ []))
unfolding bulk_insert_batch
bulk_insert_batch-rows {b} law now base c docs e e' ids h = go (get_collection c e).1 refl h
  where
    rows : List Row
    rows = bulk_rows b.marshal now c base docs

    go :
        (r : Result JsonCollection)
        → (get_collection c e).1 ≡ r
        → write_loaded now c rows ((get_collection c e).0, r) ≡ (e', ok ids)
        → (ids ≡ ids_of rows)
          × All (λ r. stored e' c r.id ≡ some r) rows
          × ((d q : Text) → Lacks q rows → stored e' d q ≡ stored e d q)
          × (e'.pending
              ≡ e.pending ++ (record { collection = c; delta = pos (length rows); at = now } ∷ []))
    go panic k w = absurd (ground (arith, w))
    go (err x) k w = absurd (ground (arith, w))
    go (ok col) k w =
        (let f = (get_collection c e).0 in
          let (es, en, ep) = get_collection-shards c e in
          let wrote = write_rows_inversion now c rows f e' ids w in
          (
            wrote.answer,
            stored_rows law f e' c rows wrote.fine wrote.shards wrote.count rows
                (replaced-bulk_rows b.marshal now base c docs) wrote.placed,
            (λ d q lacks.
                stored_other law f e' c rows wrote.fine wrote.shards wrote.count d q lacks
                ∙ stored_same e f d q es en),
            wrote.pending
                ∙ ap
                    (λ p.
                      p ++ (record { collection = c; delta = pos (length rows); at = now } ∷ []))
                    ep,
          ))

-- The row of each document of a batch, at its place.
bulk_rows-at :
    (marshal : Document → Text) (now base : ℕ) (c : Text) (docs : List Document) (i : ℕ)
    (doc : Document)
    → get_elem? docs i ≡ some doc
    → get_elem? (bulk_rows marshal now c base docs) i
      ≡ some (new_row marshal now (document_id c now (base + i)) c doc)
unfolding bulk_rows
bulk_rows-at marshal now base c [] i doc h = absurd (ground (arith, h))
bulk_rows-at marshal now base c (d ∷ docs) zero doc h =
    (let start : base ≡ base + 0 = omega arith in
      ap (λ x. some (new_row marshal now (document_id c now base) c x)) (some-injective _ _ h)
      ∙ ap (λ j. some (new_row marshal now (document_id c now j) c doc)) start)
bulk_rows-at marshal now base c (d ∷ docs) (suc i) doc h =
    (let next : suc base + i ≡ base + suc i = omega arith in
      bulk_rows-at marshal now (suc base) c docs i doc h
      ∙ ap (λ j. some (new_row marshal now (document_id c now j) c doc)) next)

length-bulk_rows :
    (marshal : Document → Text) (now base : ℕ) (c : Text) (docs : List Document)
    → length (bulk_rows marshal now c base docs) ≡ length docs
unfolding bulk_rows
length-bulk_rows marshal now base c [] = refl
length-bulk_rows marshal now base c (doc ∷ docs) =
    ap suc (length-bulk_rows marshal now (suc base) c docs)

length-ids_of : (rows : List Row) → length (ids_of rows) ≡ length rows
length-ids_of [] = refl
length-ids_of (r ∷ rows) = ap suc (length-ids_of rows)

ids_of-at :
    (rows : List Row) (i : ℕ) (r : Row)
    → get_elem? rows i ≡ some r
    → get_elem? (ids_of rows) i ≡ some r.id
ids_of-at [] i r h = absurd (ground (arith, h))
ids_of-at (x ∷ rows) zero r h = ap (λ o. some o.id) (some-injective _ _ h)
ids_of-at (x ∷ rows) (suc i) r h = ids_of-at rows i r h

All-at :
    (P : Row → Type 0) (rows : List Row) (i : ℕ) (r : Row)
    → All P rows
    → get_elem? rows i ≡ some r
    → P r
All-at P [] i r h at = absurd (ground (arith, at))
All-at P (x ∷ rows) zero r h at = subst P (some-injective _ _ at) h.0
All-at P (x ∷ rows) (suc i) r h at = All-at P rows i r h.1 at

bulk_rows-Other :
    (marshal : Document → Text) (now base : ℕ) (c : Text) (docs : List Document) (q : Text)
    → ((i : ℕ) → i < length docs → q ≢ document_id c now (base + i))
    → Lacks q (bulk_rows marshal now c base docs)
unfolding bulk_rows
bulk_rows-Other marshal now base c [] q h = tt
bulk_rows-Other marshal now base c (doc ∷ docs) q h = (
  (λ e.
      (let start : base ≡ base + 0 = omega arith in
        h 0 (omega arith) (sym e ∙ ap (document_id c now) start))),
  bulk_rows-Other marshal now (suc base) c docs q (λ i k e.
      (let next : suc base + i ≡ base + suc i = omega arith in
        h (suc i) (omega (arith, k)) (e ∙ ap (document_id c now) next))),
)

-- A batch that succeeds returns one identifier for each of its documents: at the place of a document, the
-- identifier made of the collection, the time and the number of that place, counted on from the start of the
-- batch. The document, encoded, is stored under it with that time; every document under another identifier is
-- as it was, and one update of the count by the number of the documents was started.
pub bulk_insert_batch-stored :
    {b : Backend}
    → IsLawful b
    → (now base : ℕ) (c : Text) (docs : List Document) (e e' : JsonEngine b) (ids : List Text)
    → bulk_insert_batch now c docs base e ≡ (e', ok ids)
    → (length ids ≡ length docs)
      × ((i : ℕ) (doc : Document)
          → get_elem? docs i ≡ some doc
          → (get_elem? ids i ≡ some (document_id c now (base + i)))
            × (stored e' c (document_id c now (base + i))
                ≡ some (new_row b.marshal now (document_id c now (base + i)) c doc)))
      × ((d q : Text)
          → ((i : ℕ) → i < length docs → q ≢ document_id c now (base + i))
          → stored e' d q ≡ stored e d q)
      × (e'.pending
          ≡ e.pending ++ (record { collection = c; delta = pos (length docs); at = now } ∷ []))
bulk_insert_batch-stored {b} law now base c docs e e' ids h =
    (let rows = bulk_rows b.marshal now c base docs in
      let (same, kept, others, counted) = bulk_insert_batch-rows law now base c docs e e' ids h in
      let many = length-bulk_rows b.marshal now base c docs in
      (
        ap length same ∙ length-ids_of rows ∙ many,
        (λ i doc k.
            (let at = bulk_rows-at b.marshal now base c docs i doc k in
              (
                ap (λ l. get_elem? l i) same ∙ ids_of-at rows i _ at,
                All-at (λ r. stored e' c r.id ≡ some r) rows i _ kept at,
              ))),
        (λ d q ne. others d q (bulk_rows-Other b.marshal now base c docs q ne)),
        counted
            ∙ ap (λ n. e.pending ++ (record { collection = c; delta = pos n; at = now } ∷ [])) many,
      ))
