-- ===== src/Jsondb/Backend.antt =====
-- lsengine/internal/jsondb/engine.go: the records of the engine, and what it calls of SQLite and of
-- encoding/json, as an interface. A failed call is `none`.
use lsengine_js.Base.{
  ℕ, ◌≤◌, ◌≡◌, Bool, Option, none, some, List, [], ◌∷◌, if◌then◌else◌, length, All, Text, text_eq,
  ℤ,
}

-- The dynamic types of a value that the schema check tells apart.
pub data Value : Type 0 where
  text : Text → Value
  float64 : ℕ → Value
  int64 : ℤ → Value
  int : ℤ → Value
  boolean : Bool → Value
  composite : Text → Value

-- A `map[string]interface{}`
abbrev pub Document : Type 0
Document = List (Text × Value)

-- A row of the table `documents`.
pub record Row : Type 0 where
  pub id : Text
  pub collection : Text
  pub body : Text
  pub created_at : ℕ
  pub updated_at : ℕ

-- What a query for one row of `collections` gives.
pub data Loaded (A : Type 0) : Type 0 where
  found : A → Loaded A
  no_rows : Loaded A
  failed : Loaded A

pub record JsonCollection : Type 0 where
  pub name : Text
  pub schema : List (Text × Text)
  pub indices : List Text

-- The databases of the shards, the metadata database and the JSON codec. `row` is what a shard holds
-- under an identifier.
pub record Backend : Type 1 where
  pub Shard : Type 0
  pub Meta : Type 0
  pub row : Shard → Text → Option Row
  pub insert_row : Row → Shard → Option Shard
  pub replace_rows : List Row → Shard → Option Shard
  pub update_row : Text → Text → ℕ → Shard → Option Shard
  pub delete_row : Text → Shard → Option Shard
  pub select_page : Text → ℕ → ℕ → Shard → Option (List Row)
  pub load_collection : Text → Meta → Loaded JsonCollection
  pub count_collections : Text → Meta → Option ℕ
  pub insert_collection : JsonCollection → ℕ → Meta → Option Meta
  pub marshal : Document → Text
  pub unmarshal : Text → Option Document

-- The row under an identifier after `INSERT OR REPLACE` of rows.
abbrev pub replaced : Text → List Row → Option Row → Option Row
replaced id [] old = old
replaced id (r ∷ rows) old = replaced id rows (if text_eq r.id id then some r else old)

-- What the engine relies on: each statement does to the table what its SQL says.
pub record IsLawful (b : Backend) : Type 0 where
  pub row-insert_row :
      (r : Row) (s t : b.Shard) (id : Text)
      → b.insert_row r s ≡ some t
      → b.row t id ≡ (if text_eq r.id id then some r else b.row s id)
  pub row-replace_rows :
      (rows : List Row) (s t : b.Shard) (id : Text)
      → b.replace_rows rows s ≡ some t
      → b.row t id ≡ replaced id rows (b.row s id)
  pub row-update_row :
      (k body : Text) (now : ℕ) (s t : b.Shard) (id : Text)
      → b.update_row k body now s ≡ some t
      → b.row t id ≡ (
          if text_eq k id
          then elim (b.row s id) [
            | none ↦ none
            | some r ↦ some (record r { body = body; updated_at = now })
          ]
          else b.row s id)
  pub row-delete_row :
      (k : Text) (s t : b.Shard) (id : Text)
      → b.delete_row k s ≡ some t
      → b.row t id ≡ (if text_eq k id then none else b.row s id)
  pub length-select_page-le :
      (c : Text) (limit offset : ℕ) (s : b.Shard) (rows : List Row)
      → b.select_page c limit offset s ≡ some rows
      → length rows ≤ limit
  pub select_page-collection :
      (c : Text) (limit offset : ℕ) (s : b.Shard) (rows : List Row)
      → b.select_page c limit offset s ≡ some rows
      → All (λ r. r.collection ≡ c) rows
  pub select_page-row :
      (c : Text) (limit offset : ℕ) (s : b.Shard) (rows : List Row)
      → b.select_page c limit offset s ≡ some rows
      → All (λ r. b.row s r.id ≡ some r) rows

-- An `UPDATE` of `collections.document_count` that a goroutine was started for.
pub record CountUpdate : Type 0 where
  pub collection : Text
  pub delta : ℤ
  pub at : ℕ

pub record JsonEngine (b : Backend) : Type 0 where
  pub shards : List b.Shard
  pub shard_count : ℕ
  pub page_size : ℕ
  pub metadata : b.Meta
  pub cache : List (Text × JsonCollection)
  pub pending : List CountUpdate
  pub json_ops : ℕ
  pub json_errors : ℕ

pub data Error : Type 0 where
  collection_not_found collection_exists database_error : Error
  must_be_string must_be_number must_be_boolean : Text → Error

pub data Result {ℓ} (A : Type ℓ) : Type ℓ where
  ok : A → Result A
  err : Error → Result A
  panic : Result A
