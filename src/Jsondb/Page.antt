-- ===== src/Jsondb/Page.antt =====
-- lsengine/internal/jsondb/engine.go: `FindPage`, `Find` and `FindOne`. The shards answer in any order:
-- the order is an argument, a list of the numbers of the shards that were asked. The contexts' timeout
-- is a failed query. The page numbers are taken small enough that `(page - 1) * pageSize` does not wrap.
use lsengine_js.Base.{
  ℕ, zero, suc, ◌+◌, ◌-◌, ◌*◌, ◌/◌, ◌%◌, Bool, Option, none, some, List, [], ◌∷◌, ◌++◌,
  if◌then◌else◌, ltb, ◌==◌, min, length, get_elem?, take, Text, ℤ, pos, negsuc,
}
use lsengine_js.Jsondb.Backend.{
  Document, Row, JsonCollection, Backend, JsonEngine, Result, ok, err, panic,
}
use lsengine_js.Jsondb.Engine.{get_collection}

-- A `JsonDocument`; a text that is no JSON leaves `Data` nil, which is `none`.
pub record JsonDocument : Type 0 where
  pub id : Text
  pub fields : Option Document
  pub created_at : ℕ
  pub updated_at : ℕ
  pub shard_id : ℕ

pub record PageResult : Type 0 where
  pub documents : List JsonDocument
  pub page : ℕ
  pub page_size : ℕ
  pub has_more : Bool

-- `pageSize <= 0 || pageSize > 1000`
abbrev pub clamp_page_size : ℤ → ℕ
clamp_page_size (pos zero) = 100
clamp_page_size (pos (suc n)) = if ltb 1000 (suc n) then 100 else suc n
clamp_page_size (negsuc n) = 100

-- `(page - 1) * pageSize`, and 0 where that is negative
abbrev pub page_offset : ℤ → ℕ → ℕ
page_offset (pos n) size = (n - 1) * size
page_offset (negsuc n) size = 0

-- `sort.Slice` by `UpdatedAt`, latest first. Documents of one time come in any order in Go.
unfoldable pub insert_latest : JsonDocument → List JsonDocument → List JsonDocument
insert_latest d [] = d ∷ []
insert_latest d (x ∷ docs) =
    if ltb d.updated_at x.updated_at then x ∷ insert_latest d docs else d ∷ x ∷ docs

unfoldable pub sort_latest : List JsonDocument → List JsonDocument
unfolding insert_latest
sort_latest [] = []
sort_latest (d ∷ docs) = insert_latest d (sort_latest docs)

module _ (unmarshal : Text → Option Document) (i : ℕ) where
  abbrev pub to_document : Row → JsonDocument
  to_document r = record {
    id = r.id;
    fields = unmarshal r.body;
    created_at = r.created_at;
    updated_at = r.updated_at;
    shard_id = i;
  }

  abbrev pub to_documents : List Row → List JsonDocument
  to_documents [] = []
  to_documents (r ∷ rows) = to_document r ∷ to_documents rows

  abbrev pub answered : Option (List Row) → List JsonDocument
  answered none = []
  answered (some rows) = to_documents rows

abbrev pub page_result : Result JsonCollection → (JsonCollection → PageResult) → Result PageResult
page_result (ok c) f = ok (f c)
page_result (err x) f = err x
page_result panic f = panic

abbrev pub documents_of : Result PageResult → Result (List JsonDocument)
documents_of (ok p) = ok p.documents
documents_of (err x) = err x
documents_of panic = panic

abbrev pub first_of_page : Result PageResult → Result (Option JsonDocument)
first_of_page (ok p) = ok (get_elem? p.documents 0)
first_of_page (err x) = err x
first_of_page panic = panic

module _ {b : Backend} where
  abbrev pub shards_needed : JsonEngine b → ℕ → ℕ → ℕ
  shards_needed e offset size = min ((offset + size + e.page_size - 1) / e.page_size) e.shard_count

  -- `shardOffset` and `shardLimit`
  abbrev pub shard_offset : JsonEngine b → ℕ → ℕ → ℕ
  shard_offset e offset i =
      if ltb i (offset % e.shard_count) then offset / e.shard_count + 1 else offset / e.shard_count

  abbrev pub shard_limit : JsonEngine b → ℕ → ℕ
  shard_limit e size = size / e.shard_count + 1

  -- the goroutine of one shard, and what the collecting loop takes from it: nothing after an error
  unfoldable pub query_shard : JsonEngine b → Text → ℕ → ℕ → ℕ → List JsonDocument
  query_shard e name offset size i = elim (get_elem? e.shards i) [
    | none ↦ []
    | some s ↦
        answered b.unmarshal i (b.select_page name (shard_limit e size) (shard_offset e offset i) s)
  ]

  unfoldable pub collect : JsonEngine b → Text → ℕ → ℕ → List ℕ → List JsonDocument
  unfolding query_shard
  collect e name offset size [] = []
  collect e name offset size (i ∷ arrivals) =
      query_shard e name offset size i ++ collect e name offset size arrivals

  unfoldable pub page_of : JsonEngine b → Text → ℕ → ℕ → List ℕ → PageResult
  unfolding sort_latest collect
  page_of e name offset size arrivals =
      let docs = take size (sort_latest (collect e name offset size arrivals)) in
      record {
        documents = docs;
        page = offset / size + 1;
        page_size = size;
        has_more = length docs == size;
      }

  -- The query is an argument that no statement reads.
  unfoldable pub find_page :
      List ℕ → Text → Document → ℤ → ℤ → JsonEngine b → JsonEngine b × Result PageResult
  find_page arrivals collection query page page_size before =
      let size = clamp_page_size page_size in
      let (e, col) = get_collection collection before in
      (e, page_result col (λ c. page_of e c.name (page_offset page size) size arrivals))

  unfoldable pub find_documents :
      List ℕ → Text → Document → JsonEngine b → JsonEngine b × Result (List JsonDocument)
  unfolding find_page
  find_documents arrivals collection query e =
      let (e', p) = find_page arrivals collection query (pos 1) (pos 10000) e in
      (e', documents_of p)

  unfoldable pub find_one :
      List ℕ → Text → Document → JsonEngine b → JsonEngine b × Result (Option JsonDocument)
  unfolding find_page
  find_one arrivals collection query e =
      let (e', p) = find_page arrivals collection query (pos 1) (pos 1) e in (e', first_of_page p)
