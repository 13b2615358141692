-- ===== src/Jsondb/Engine.antt =====
-- lsengine/internal/jsondb/engine.go: collections, `Insert`, `Update` and `Delete`. The clock and the
-- random number are arguments. An operation returns the engine with its result.
use lsengine_js.Base.{
  ℕ, zero, suc, ◌+◌, ◌/◌, ◌%◌, Option, none, some, List, [], ◌∷◌, ◌++◌, if◌then◌else◌, ltb, Text,
  bytes, text_eq, get_elem?, lookup, insert, pos,
}
use lsengine_js.Hash.{fnv_hash}
use lsengine_js.Jsondb.Backend.{
  Value, text, boolean, composite, Document, found, no_rows, failed, JsonCollection, Backend,
  CountUpdate, JsonEngine, Error, collection_not_found, collection_exists, database_error,
  must_be_string, must_be_number, must_be_boolean, Result, ok, err, panic,
}

-- a write to `je.shards[i]`
abbrev pub set_shard {ℓ} : {A : Type ℓ} → List A → ℕ → A → List A
set_shard [] i s = []
set_shard (x ∷ xs) zero s = s ∷ xs
set_shard (x ∷ xs) (suc i) s = x ∷ set_shard xs i s

module _ {b : Backend} where
  -- `int(Sum32()) % shardCount`, where int has 64 bits
  unfoldable pub get_shard : JsonEngine b → Text → Text → ℕ
  get_shard e id collection = fnv_hash (collection ++ (bytes ":" ++ id)) % e.shard_count

  abbrev pub count_op : JsonEngine b → JsonEngine b
  count_op e = record e { json_ops = e.json_ops + 1 }

  abbrev pub count_error : JsonEngine b → JsonEngine b
  count_error e = record e { json_errors = e.json_errors + 1 }

  -- A miss loads the collection from the metadata and keeps it in the cache.
  unfoldable pub get_collection : Text → JsonEngine b → JsonEngine b × Result JsonCollection
  get_collection name e = elim (lookup name e.cache) [
    | some c ↦ (e, ok c)
    | none ↦ elim (b.load_collection name e.metadata) [
      | no_rows ↦ (e, err collection_not_found)
      | failed ↦ (e, err database_error)
      | found c ↦ (record e { cache = insert name c e.cache }, ok c)
    ]
  ]

  abbrev created : JsonCollection → JsonEngine b → Option b.Meta → JsonEngine b × Result (Unit {0})
  created c e none = (count_error e, err database_error)
  created c e (some m) = (record e { metadata = m; cache = insert c.name c e.cache }, ok tt)

  unfoldable pub create_collection :
      ℕ → Text → List (Text × Text) → List Text → JsonEngine b → JsonEngine b × Result (Unit {0})
  create_collection now name schema indices before =
      let e = count_op before in
      let c : JsonCollection = record { name = name; schema = schema; indices = indices } in
      elim (b.count_collections name e.metadata) [
        | none ↦ (count_error e, err database_error)
        | some n ↦
            if ltb 0 n
            then (e, err collection_exists)
            else created c e (b.insert_collection c now e.metadata)
      ]

-- the `switch` of the schema check: the error of one field, if its value does not fit
unfoldable pub field_error : Text → Text → Value → Option Error
field_error field kind (text t) =
    if text_eq kind (bytes "number")
    then some (must_be_number field)
    else if text_eq kind (bytes "boolean")
    then some (must_be_boolean field)
    else none
field_error field kind (boolean v) =
    if text_eq kind (bytes "string")
    then some (must_be_string field)
    else if text_eq kind (bytes "number")
    then some (must_be_number field)
    else none
field_error field kind (composite v) =
    if text_eq kind (bytes "string")
    then some (must_be_string field)
    else if text_eq kind (bytes "number")
    then some (must_be_number field)
    else if text_eq kind (bytes "boolean")
    then some (must_be_boolean field)
    else none
field_error field kind number =
    if text_eq kind (bytes "string")
    then some (must_be_string field)
    else if text_eq kind (bytes "boolean")
    then some (must_be_boolean field)
    else none

-- the loop over `col.Schema`: the first field that does not fit. A missing field is no error.
unfoldable pub validate : List (Text × Text) → Document → Option Error
unfolding field_error
validate [] doc = none
validate ((field, kind) ∷ schema) doc = elim (lookup field doc) [
  | none ↦ validate schema doc
  | some v ↦ elim (field_error field kind v) [ none ↦ validate schema doc | some e ↦ some e ]
]

-- `fmt.Sprintf("%d", n)`: the digits of a number, with fuel for their count.
unfoldable pub digits_from : ℕ → ℕ → Text → Text
digits_from zero n acc = acc
digits_from (suc fuel) n acc =
    let rest = digits_from fuel (n / 10) ((b'0' + n % 10) ∷ acc) in
    if ltb n 10 then (b'0' + n % 10) ∷ acc else rest

unfoldable pub decimal : ℕ → Text
unfolding digits_from
decimal n = digits_from (suc n) n []

-- `fmt.Sprintf("%s_%d_%d", collection, stamp, number)`
unfoldable pub document_id : Text → ℕ → ℕ → Text
unfolding decimal
document_id collection stamp number =
    collection ++ (bytes "_" ++ (decimal stamp ++ (bytes "_" ++ decimal number)))

module _ {b : Backend} where
  -- the write of one shard: what its database became, or that it failed
  abbrev pub write_shard :
      JsonEngine b
      → ℕ
      → Option b.Shard
      → (JsonEngine b → JsonEngine b)
      → Text
      → JsonEngine b × Result Text
  write_shard e i none finish answer = (count_error e, err database_error)
  write_shard e i (some s) finish answer =
      (finish (record e { shards = set_shard e.shards i s }), ok answer)

  -- the goroutine that changes `document_count`
  abbrev pub enqueue : CountUpdate → JsonEngine b → JsonEngine b
  enqueue u e = record e { pending = e.pending ++ (u ∷ []) }

  unfoldable pub insert_valid :
      ℕ → ℕ → ℕ → Text → Document → JsonEngine b → JsonEngine b × Result Text
  unfolding get_shard document_id
  insert_valid now_nano now random collection doc e =
      let id = document_id collection now_nano random in
      let i = get_shard e id collection in
      elim (get_elem? e.shards i) [
        | none ↦ (e, panic)
        | some s ↦
            write_shard e i
              (b.insert_row
                (record {
                  id = id;
                  collection = collection;
                  body = b.marshal doc;
                  created_at = now;
                  updated_at = now;
                })
                s)
              (enqueue (record { collection = collection; delta = pos 1; at = now })) id
      ]

  unfoldable pub insert_into :
      ℕ
      → ℕ
      → ℕ
      → Text
      → Document
      → JsonEngine b
      → Result JsonCollection
      → JsonEngine b × Result Text
  unfolding insert_valid validate
  insert_into now_nano now random collection doc e panic = (e, panic)
  insert_into now_nano now random collection doc e (err x) = (count_error e, err x)
  insert_into now_nano now random collection doc e (ok col) = elim (validate col.schema doc) [
    | some x ↦ (e, err x)
    | none ↦ insert_valid now_nano now random collection doc e
  ]

  unfoldable pub insert_document :
      ℕ → ℕ → ℕ → Text → Document → JsonEngine b → JsonEngine b × Result Text
  unfolding get_collection insert_into
  insert_document now_nano now random collection doc before =
      let (e, col) = get_collection collection (count_op before) in
      insert_into now_nano now random collection doc e col
