-- ===== src/Jsondb/Insertion.antt =====
-- lsengine/internal/jsondb/engine.go, `Insert`: the check of the schema, and what is stored.
use lsengine_js.Base.{
  sym, ◌∙◌, ℕ, ◌≡◌, ◌≢◌, refl, inl, inr, Bool, true, false, none, some, List, [], ◌∷◌, ◌++◌, arith,
  if◌then◌else◌, Text, bytes, text_eq, text_eq_iff, text_eq_refl, get_elem?, ◌==◌, All,
  Option-cases, lookup, pos,
}
use lsengine_js.Jsondb.Backend.{
  Value, text, float64, int64, int, boolean, composite, Document, Row, JsonCollection, Backend,
  IsLawful, JsonEngine, Result, ok, err, panic,
}
use lsengine_js.Jsondb.Engine.{
  get_shard, set_shard, count_op, get_collection, field_error, validate, document_id, insert_valid,
  insert_into, insert_document,
}
use lsengine_js.Jsondb.Change.{stored, stored-set_shard}

abbrev is_text : Value → Bool
is_text (text t) = true
is_text other = false

abbrev is_boolean : Value → Bool
is_boolean (boolean v) = true
is_boolean other = false

abbrev is_number : Value → Bool
is_number (float64 n) = true
is_number (int64 n) = true
is_number (int n) = true
is_number other = false

-- A value of the kind that a schema names. Other kinds mean nothing.
abbrev pub HasKind : Text → Value → Type 0
HasKind kind v =
    (kind ≡ bytes "string" → is_text v ≡ true)
    × (kind ≡ bytes "number" → is_number v ≡ true)
    × (kind ≡ bytes "boolean" → is_boolean v ≡ true)

-- Each field of the schema that the document has is of its kind.
abbrev pub Fits : List (Text × Text) → Document → Type 0
Fits schema doc =
    All (λ entry. (v : Value) → lookup entry.0 doc ≡ some v → HasKind entry.1 v) schema

field_error-HasKind :
    (field kind : Text) (v : Value) → field_error field kind v ≡ none → HasKind kind v
unfolding field_error
field_error-HasKind field kind (text t) h = (
  λ e. refl,
  λ e. ground (arith, text_eq_iff kind (bytes "number")),
  λ e. ground (arith, text_eq_iff kind (bytes "boolean")),
)
field_error-HasKind field kind (boolean t) h = (
  λ e. ground (arith, text_eq_iff kind (bytes "string")),
  λ e. ground (arith, text_eq_iff kind (bytes "number")),
  λ e. refl,
)
field_error-HasKind field kind (composite t) h = (
  λ e. ground (arith, text_eq_iff kind (bytes "string")),
  λ e. ground (arith, text_eq_iff kind (bytes "number")),
  λ e. ground (arith, text_eq_iff kind (bytes "boolean")),
)
field_error-HasKind field kind (float64 n) h = (
  λ e. ground (arith, text_eq_iff kind (bytes "string")),
  λ e. refl,
  λ e. ground (arith, text_eq_iff kind (bytes "boolean")),
)
field_error-HasKind field kind (int64 n) h = (
  λ e. ground (arith, text_eq_iff kind (bytes "string")),
  λ e. refl,
  λ e. ground (arith, text_eq_iff kind (bytes "boolean")),
)
field_error-HasKind field kind (int n) h = (
  λ e. ground (arith, text_eq_iff kind (bytes "string")),
  λ e. refl,
  λ e. ground (arith, text_eq_iff kind (bytes "boolean")),
)

validate-Fits :
    (schema : List (Text × Text)) (doc : Document) → validate schema doc ≡ none → Fits schema doc
unfolding validate
validate-Fits [] doc h = tt
validate-Fits ((field, kind) ∷ schema) doc h = elim (Option-cases (lookup field doc)) [
  | inl e ↦ ((λ v k. absurd (ground arith)), validate-Fits schema doc (ground arith))
  | inr (v, e) ↦ elim (Option-cases (field_error field kind v)) [
    | inl f ↦ (
      (λ w k. field_error-HasKind field kind w (ground arith)),
      validate-Fits schema doc (ground arith),
    )
    | inr (x, f) ↦ absurd (ground arith)
  ]
]

-- The row that an insertion writes.
abbrev pub new_row : (Document → Text) → ℕ → Text → Text → Document → Row
new_row marshal now id c doc = record {
  id = id;
  collection = c;
  body = marshal doc;
  created_at = now;
  updated_at = now;
}

module _ {b : Backend} where
  pub get_collection-shards :
      (name : Text) (e : JsonEngine b)
      → ((get_collection name e).0.shards ≡ e.shards)
        × ((get_collection name e).0.shard_count ≡ e.shard_count)
        × ((get_collection name e).0.pending ≡ e.pending)
  unfolding get_collection
  get_collection-shards name e = ground arith

  insert_valid_inversion :
      (nano now random : ℕ) (c id' : Text) (doc : Document) (e e' : JsonEngine b) (id : Text)
      → id' ≡ document_id c nano random
      → insert_valid nano now random c doc e ≡ (e', ok id)
      → (s t : b.Shard) × (id ≡ id')
        × (get_elem? e.shards (get_shard e id' c) ≡ some s)
        × (b.insert_row (new_row b.marshal now id' c doc) s ≡ some t)
        × (e'.shards ≡ set_shard e.shards (get_shard e id' c) t)
        × (e'.shard_count ≡ e.shard_count)
        × (e'.pending ≡ e.pending ++ (record { collection = c; delta = pos 1; at = now } ∷ []))
  unfolding insert_valid
  insert_valid_inversion nano now random c id' doc e e' id i h =
      elim (Option-cases (get_elem? e.shards (get_shard e id' c))) [
        | inl k ↦ absurd (ground (arith, i))
        | inr (s, k) ↦ elim (Option-cases (b.insert_row (new_row b.marshal now id' c doc) s)) [
          | inl l ↦ absurd (ground (arith, i))
          | inr (t, l) ↦ (
            s,
            t,
            ground (arith, i),
            k,
            l,
            ground (arith, i),
            ground (arith, i),
            ground (arith, i),
          )
        ]
      ]

  insert_into_inversion :
      (nano now random : ℕ) (c : Text) (doc : Document) (e e' : JsonEngine b) (id : Text)
      (r : Result JsonCollection)
      → insert_into nano now random c doc e r ≡ (e', ok id)
      → (col : JsonCollection) × (r ≡ ok col)
        × Fits col.schema doc
        × (insert_valid nano now random c doc e ≡ (e', ok id))
  unfolding insert_into
  insert_into_inversion nano now random c doc e e' id panic h = absurd (ground arith)
  insert_into_inversion nano now random c doc e e' id (err x) h = absurd (ground arith)
  insert_into_inversion nano now random c doc e e' id (ok col) h =
      elim (Option-cases (validate col.schema doc)) [
        | inl k ↦ (col, refl, validate-Fits col.schema doc k, ground arith)
        | inr (x, k) ↦ absurd (ground arith)
      ]

  pub stored_same :
      (e f : JsonEngine b) (c q : Text)
      → f.shards ≡ e.shards
      → f.shard_count ≡ e.shard_count
      → stored f c q ≡ stored e c q
  unfolding stored get_shard
  stored_same e f c q s n = rw (stored, s, n) refl

-- The document that a shard holds after a write of one row, where it is looked for in the right shard.
row_written :
    (b : Backend) (c d q id : Text) (r : Row) (s : b.Shard) (i : ℕ) (e : JsonEngine b)
    → get_elem? e.shards i ≡ some s
    → q ≢ id
    → (if i == get_shard e q d then (if text_eq id q then some r else b.row s q) else stored e d q)
      ≡ stored e d q
unfolding stored
row_written b c d q id r s i e h ne = ground (arith, text_eq_iff id q)

module _ {b : Backend} (law : IsLawful b) where
  -- An insertion that succeeds returns the identifier made of the collection, the time and the number. Its
  -- document met the schema of the collection, and is found under the identifier; every other document is as
  -- it was, and one increment of the count was started.
  pub insert_document-stored :
      (nano now random : ℕ) (c : Text) (doc : Document) (e e' : JsonEngine b) (id : Text)
      → insert_document nano now random c doc e ≡ (e', ok id)
      → (id ≡ document_id c nano random)
        × ((col : JsonCollection) × ((get_collection c (count_op e)).1 ≡ ok col)
            × Fits col.schema doc)
        × (stored e' c id ≡ some (new_row b.marshal now id c doc))
        × ((d q : Text) → q ≢ id → stored e' d q ≡ stored e d q)
        × (e'.pending ≡ e.pending ++ (record { collection = c; delta = pos 1; at = now } ∷ []))
  unfolding insert_document
  insert_document-stored nano now random c doc e e' id h =
      (let e1 = (get_collection c (count_op e)).0 in
        let (es, en, ep) = get_collection-shards c (count_op e) in
        let (col, loaded, fits, valid) =
          insert_into_inversion nano now random c doc e1 e' id (get_collection c (count_op e)).1
            h in
        let (s, t, same, k, written, ss, sn, sp) =
          insert_valid_inversion nano now random c (document_id c nano random) doc e1 e' id refl
            valid in
        let i = get_shard e1 (document_id c nano random) c in
        let row = new_row b.marshal now (document_id c nano random) c doc in
        (
          same,
          (col, loaded, fits),
          rw
              (
                same,
                stored-set_shard law e1 i s t e' c (document_id c nano random) k ss sn,
                law.row-insert_row row s t (document_id c nano random) written,
              )
              (ground (arith, text_eq_refl (document_id c nano random))),
          (λ d q ne.
              stored-set_shard law e1 i s t e' d q k ss sn
              ∙ rw (law.row-insert_row row s t q written) (
                  row_written b c d q (document_id c nano random) row s i e1 k
                    (λ x. ne (x ∙ sym same)))
              ∙ stored_same e e1 d q es en),
          rw⁻¹ ep sp,
        ))
