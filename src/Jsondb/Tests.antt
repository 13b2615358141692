-- ===== src/Jsondb/Tests.antt =====
-- lsengine/internal/jsondb/engine.go: the engine over tables in memory, and the theorems applied.
use lsengine_js.Base.{
  subst, sym, ◌∙◌, ap, ℕ, ◌&&◌, Option, ◌+◌, ◌*◌, ◌/◌, ◌≤◌, ◌<◌, ◌≡◌, ◌≢◌, refl, false, none, some,
  List, [], ◌∷◌, ◌++◌, arith, if◌then◌else◌, length, drop, take, get_elem?, length-take, All,
  All-take, All-drop, Text, bytes, text_eq, text_eq_iff, lookup, insert, delete, lookup-insert,
  lookup-delete, pos, negsuc, Bool-cases, Option-cases, inl, inr, ◌⊎◌,
}
use mathlib.Core.Option.{some-injective}
use lsengine_js.Hash.{fnv_hash}
use lsengine_js.Jsondb.Backend.{
  Document, text, Row, found, no_rows, JsonCollection, Backend, IsLawful, JsonEngine, Error, ok,
  database_error, err, replaced,
}
use lsengine_js.Jsondb.Engine.{get_collection, insert_document, document_id, count_op}
use lsengine_js.Jsondb.Insertion.{Fits, new_row, insert_document-stored}
use lsengine_js.Jsondb.Change.{
  fall_back, update_document, delete_document, stored, delete_document-stored,
  update_document-stored,
}
use lsengine_js.Jsondb.Bulk.{
  shard_at, bulk_rows, rows_for, all_placed, write_batches, write_rows, bulk_insert_batch,
  bulk_loop, bulk_insert,
}
use lsengine_js.Jsondb.Batches.{bulk_insert_batch-stored}
use lsengine_js.Jsondb.Fuel.{bulk_insert-length}
use lsengine_js.Jsondb.Page.{
  PageResult, clamp_page_size, page_offset, shard_offset, shards_needed, page_of, find_page,
}
use lsengine_js.Jsondb.Shown.{Shows}
use lsengine_js.Jsondb.Pages.{IsLatestFirst, IsFrom, find_page_bounds, find_page-first_shard}

-- The rows of the collection that stand under their identifiers, among the entries of the table.
abbrev own_row : Text → Text → Option Row → List Row → List Row
own_row c k none rest = rest
own_row c k (some r) rest = if text_eq r.collection c && text_eq r.id k then r ∷ rest else rest

abbrev rows_of : List (Text × Row) → Text → List (Text × Row) → List Row
rows_of s c [] = []
rows_of s c ((k, r) ∷ rest) = own_row c k (lookup k s) (rows_of s c rest)

abbrev insert_all : List Row → List (Text × Row) → List (Text × Row)
insert_all [] s = s
insert_all (r ∷ rows) s = insert_all rows (insert r.id r s)

-- Tables in memory; a page is taken in the order of insertion.
abbrev tables : Backend
tables = record {
  Shard = List (Text × Row);
  Meta = List (Text × JsonCollection);
  row = λ s id. lookup id s;
  insert_row = λ r s. elim (lookup r.id s) [ none ↦ some (insert r.id r s) | some _ ↦ none ];
  replace_rows = λ rows s. some (insert_all rows s);
  update_row = λ id body now s. elim (lookup id s) [
    | none ↦ some s
    | some r ↦ some (insert id (record r { body = body; updated_at = now }) s)
  ];
  delete_row = λ id s. some (delete id s);
  select_page = λ c limit offset s. some (take limit (drop offset (rows_of s c s)));
  load_collection = λ name m. elim (lookup name m) [ none ↦ no_rows | some c ↦ found c ];
  count_collections = λ name m. some 0;
  insert_collection = λ c now m. some (insert c.name c m);
  marshal = λ d. bytes "{}";
  unmarshal = λ t. some [];
}

abbrev IsOwn : List (Text × Row) → Text → Row → Type 0
IsOwn s c r = (lookup r.id s ≡ some r) × (r.collection ≡ c)

own_row-IsOwn :
    (s : List (Text × Row)) (c k : Text) (o : Option Row) (rest : List Row)
    → lookup k s ≡ o
    → All (IsOwn s c) rest
    → All (IsOwn s c) (own_row c k o rest)
own_row-IsOwn s c k none rest h own = own
own_row-IsOwn s c k (some r) rest h own =
    elim (Bool-cases (text_eq r.collection c && text_eq r.id k)) [
      | inl e ↦
          (let key : r.id ≡ k = ground (arith, text_eq_iff r.id k, e) in
            let in_c : r.collection ≡ c = ground (arith, text_eq_iff r.collection c, e) in
            rw e ((ap (λ x. lookup x s) key ∙ h, in_c), own))
      | inr e ↦ rw e own
    ]

rows_of-IsOwn :
    (s : List (Text × Row)) (c : Text) (rest : List (Text × Row))
    → All (IsOwn s c) (rows_of s c rest)
rows_of-IsOwn s c [] = tt
rows_of-IsOwn s c ((k, r) ∷ rest) =
    own_row-IsOwn s c k (lookup k s) (rows_of s c rest) refl (rows_of-IsOwn s c rest)

select_page-IsOwn :
    (c : Text) (limit offset : ℕ) (s : List (Text × Row)) (rows : List Row)
    → tables.select_page c limit offset s ≡ some rows
    → All (IsOwn s c) rows
select_page-IsOwn c limit offset s rows h = subst (All (IsOwn s c)) (some-injective _ _ h) (
    All-take (IsOwn s c) limit (drop offset (rows_of s c s))
      (All-drop (IsOwn s c) offset (rows_of s c s) (rows_of-IsOwn s c s)))

All-map : {P Q : Row → Type 0} (rows : List Row) → ((r : Row) → P r → Q r) → All P rows → All Q rows
All-map [] f h = tt
All-map (r ∷ rows) f h = (f r h.0, All-map rows f h.1)

insert_law :
    (r : Row) (s t : List (Text × Row)) (id : Text)
    → tables.insert_row r s ≡ some t
    → lookup id t ≡ (if text_eq r.id id then some r else lookup id s)
insert_law r s t id h = ground (arith, lookup-insert r.id id r s)

replace_law :
    (rows : List Row) (s t : List (Text × Row)) (id : Text)
    → tables.replace_rows rows s ≡ some t
    → lookup id t ≡ replaced id rows (lookup id s)
replace_law [] s t id h = ap (lookup id) (sym (some-injective _ _ h))
replace_law (r ∷ rows) s t id h =
    replace_law rows (insert r.id r s) t id h ∙ ap (replaced id rows) (lookup-insert r.id id r s)

update_law :
    (k body : Text) (now : ℕ) (s t : List (Text × Row)) (id : Text)
    → tables.update_row k body now s ≡ some t
    → lookup id t ≡ (
        if text_eq k id
        then elim (lookup id s) [
          | none ↦ none
          | some r ↦ some (record r { body = body; updated_at = now })
        ]
        else lookup id s)
update_law k body now s t id h = elim (Option-cases (lookup k s)) [
  | inl e ↦ ground (arith, text_eq_iff k id)
  | inr (r, e) ↦
      ground
        (arith, text_eq_iff k id, lookup-insert k id (record r { body = body; updated_at = now }) s)
]

tables-IsLawful : IsLawful tables
tables-IsLawful = record {
  row-insert_row = insert_law;
  row-replace_rows = replace_law;
  row-update_row = update_law;
  row-delete_row = λ k s t id h. ground (arith, lookup-delete k id s);
  length-select_page-le =
      λ c limit offset s rows h. ground (arith, length-take limit (drop offset (rows_of s c s)));
  select_page-collection = λ c limit offset s rows h.
      All-map rows (λ r p. p.1) (select_page-IsOwn c limit offset s rows h);
  select_page-row = λ c limit offset s rows h.
      All-map rows (λ r p. p.0) (select_page-IsOwn c limit offset s rows h);
}

abbrev ana : Row
ana = record {
  id = bytes "u_1_2";
  collection = bytes "u";
  body = bytes "{}";
  created_at = 5;
  updated_at = 5;
}

abbrev users : JsonCollection
users = record { name = bytes "u"; schema = (bytes "age", bytes "number") ∷ []; indices = [] }

-- One shard, one collection, one document.
abbrev small : JsonEngine tables
small = record {
  shards = ((bytes "u_1_2", ana) ∷ []) ∷ [];
  shard_count = 1;
  page_size = 1000;
  metadata = [];
  cache = (bytes "u", users) ∷ [];
  pending = [];
  json_ops = 0;
  json_errors = 0;
}

program : Unit {0}
unfolding insert_document update_document delete_document stored find_page page_of get_collection
    lookup insert delete text_eq fnv_hash
program = tt

-- The identifier is made of the collection, the time and the number; a field of the wrong type is
-- refused.
insertions :
    ((insert_document 1 7 3 (bytes "u") [] small).1 ≡ ok (bytes "u_1_3"))
    × ((insert_document 1 7 2 (bytes "u") [] small).1 ≡ err database_error)
    × ((insert_document 1 7 3 (bytes "u") ((bytes "age", text (bytes "x")) ∷ []) small).1
        ≡ err (Error.must_be_number (bytes "age")))
unfolding program
insertions = (refl, refl, refl)

insert_document-stored_example :
    (bytes "u_1_3" ≡ document_id (bytes "u") 1 3)
    × ((col : JsonCollection) × ((get_collection (bytes "u") (count_op small)).1 ≡ ok col)
        × Fits col.schema [])
    × (stored (insert_document 1 7 3 (bytes "u") [] small).0 (bytes "u") (bytes "u_1_3")
        ≡ some (new_row tables.marshal 7 (bytes "u_1_3") (bytes "u") []))
    × ((d q : Text)
        → q ≢ bytes "u_1_3"
        → stored (insert_document 1 7 3 (bytes "u") [] small).0 d q ≡ stored small d q)
    × ((insert_document 1 7 3 (bytes "u") [] small).0.pending
        ≡ record { collection = bytes "u"; delta = pos 1; at = 7 } ∷ [])
unfolding program
insert_document-stored_example =
    insert_document-stored tables-IsLawful 1 7 3 (bytes "u") [] small
      (insert_document 1 7 3 (bytes "u") [] small).0 (bytes "u_1_3") refl

delete_document-stored_example :
    (stored (delete_document 9 (bytes "u") (bytes "none") small).0 (bytes "u") (bytes "none")
      ≡ none)
    × ((c q : Text)
        → q ≢ bytes "none"
        → stored (delete_document 9 (bytes "u") (bytes "none") small).0 c q ≡ stored small c q)
    × ((delete_document 9 (bytes "u") (bytes "none") small).0.pending
        ≡ [] ++ (record { collection = bytes "u"; delta = negsuc 0; at = 9 } ∷ []))
unfolding program
delete_document-stored_example =
    delete_document-stored tables-IsLawful small 9 (bytes "u") (bytes "none") _ refl

abbrev renamed : Document
renamed = (bytes "name", text (bytes "b")) ∷ []

update_document-stored_example :
    (r : Row) × (body : Text) × (stored small (bytes "u") (bytes "u_1_2") ≡ some r)
    × (stored
          (update_document 9 (bytes "u") (bytes "u_1_2") renamed small).0
          (bytes "u")
          (bytes "u_1_2")
        ≡ some (record r { body = body; updated_at = 9 }))
    × (((old : Document) × (new : Document) × (tables.unmarshal r.body ≡ some old)
          × (body ≡ tables.marshal new)
          × ((key : Text) → lookup key new ≡ fall_back (lookup key renamed) (lookup key old)))
        ⊎ ((tables.unmarshal r.body ≡ none) × (renamed ≡ []) × (body ≡ bytes "null")))
    × ((c q : Text)
        → q ≢ bytes "u_1_2"
        → stored (update_document 9 (bytes "u") (bytes "u_1_2") renamed small).0 c q
          ≡ stored small c q)
    × ((update_document 9 (bytes "u") (bytes "u_1_2") renamed small).0.pending ≡ [])
unfolding program
update_document-stored_example =
    update_document-stored tables-IsLawful small 9 (bytes "u") (bytes "u_1_2") renamed _ (refl, tt)
      refl

abbrev first_page : PageResult
first_page = record {
  documents =
      record { id = bytes "u_1_2"; fields = some []; created_at = 5; updated_at = 5; shard_id = 0 }
      ∷ [];
  page = 1;
  page_size = 10;
  has_more = false;
}

find_page_bounds_example :
    (10 ≡ clamp_page_size (pos 10))
    × (clamp_page_size (pos 10) ≤ 1000)
    × (length first_page.documents ≤ clamp_page_size (pos 10))
    × IsLatestFirst first_page.documents
    × (length first_page.documents ≤ shards_needed small 0 10 * (clamp_page_size (pos 10) / 1 + 1))
    × ((c : JsonCollection) × ((get_collection (bytes "u") small).1 ≡ ok c)
        × All (IsFrom tables small.shards c.name (shards_needed small 0 10)) first_page.documents
        × (length first_page.documents < clamp_page_size (pos 10)
            → (j i : ℕ) (s : tables.Shard) (rows : List Row) (k : ℕ) (r : Row)
            → get_elem? (0 ∷ []) j ≡ some i
            → get_elem? small.shards i ≡ some s
            → tables.select_page c.name
                (clamp_page_size (pos 10) / 1 + 1)
                (shard_offset small (page_offset (pos 1) (clamp_page_size (pos 10))) i)
                s
              ≡ some rows
            → get_elem? rows k ≡ some r
            → Shows i r first_page.documents))
unfolding program
find_page_bounds_example =
    find_page_bounds tables-IsLawful small small (0 ∷ []) (bytes "u") [] (pos 1) (pos 10) first_page
      (refl, (omega arith, tt)) refl

-- Sixteen shards, with a document in the first and one in the second.
abbrev sixteen : JsonEngine tables
sixteen = record small {
  shards =
      ((bytes "u_1_2", ana) ∷ [])
      ∷ ((bytes "u_1_9", record ana { id = bytes "u_1_9" }) ∷ [])
      ∷ []
      ∷ []
      ∷ []
      ∷ []
      ∷ []
      ∷ []
      ∷ []
      ∷ []
      ∷ []
      ∷ []
      ∷ []
      ∷ []
      ∷ []
      ∷ []
      ∷ [];
  shard_count = 16;
}

find_page-first_shard_example :
    ((c : JsonCollection) × ((get_collection (bytes "u") sixteen).1 ≡ ok c)
      × All (IsFrom tables sixteen.shards c.name 1) first_page.documents)
    × (length first_page.documents ≤ clamp_page_size (pos 10) / 16 + 1)
    × (first_page.has_more ≡ false)
unfolding program
find_page-first_shard_example =
    find_page-first_shard tables-IsLawful sixteen sixteen (0 ∷ []) (bytes "u") [] (pos 1) (pos 10)
      first_page refl refl (omega arith) (omega arith) (refl, (omega arith, tt)) refl

batches : Unit {0}
unfolding program shard_at bulk_rows rows_for all_placed write_batches write_rows bulk_insert_batch
    bulk_loop bulk_insert
batches = tt

abbrev two : List Document
two = [] ∷ [] ∷ []

-- A bulk insertion checks no schema, and a second one in the same second replaces the documents of the first.
bulk_insertions :
    ((bulk_insert (λ i. 7) (bytes "u") (((bytes "age", text (bytes "x")) ∷ []) ∷ []) small).2
      ≡ ok tt)
    × ((bulk_insert (λ i. 7) (bytes "u") two small).1 ≡ bytes "u_7_0" ∷ bytes "u_7_1" ∷ [])
    × ((bulk_insert (λ i. 7) (bytes "u") two (bulk_insert (λ i. 7) (bytes "u") two small).0).1
        ≡ bytes "u_7_0" ∷ bytes "u_7_1" ∷ [])
unfolding batches
bulk_insertions = (refl, refl, refl)

bulk_insert-length_example : length (bulk_insert (λ i. 7) (bytes "u") two small).1 ≡ 2
unfolding batches
bulk_insert-length_example = bulk_insert-length tables-IsLawful (λ i. 7) (bytes "u") two small refl

bulk_insert_batch-stored_example :
    (length (bytes "u_7_0" ∷ bytes "u_7_1" ∷ []) ≡ 2)
    × ((i : ℕ) (doc : Document)
        → get_elem? two i ≡ some doc
        → (get_elem? (bytes "u_7_0" ∷ bytes "u_7_1" ∷ []) i
            ≡ some (document_id (bytes "u") 7 (0 + i)))
          × (stored
                (bulk_insert_batch 7 (bytes "u") two 0 small).0
                (bytes "u")
                (document_id (bytes "u") 7 (0 + i))
              ≡ some
                  (new_row tables.marshal 7 (document_id (bytes "u") 7 (0 + i)) (bytes "u") doc)))
    × ((d q : Text)
        → ((i : ℕ) → i < 2 → q ≢ document_id (bytes "u") 7 (0 + i))
        → stored (bulk_insert_batch 7 (bytes "u") two 0 small).0 d q ≡ stored small d q)
    × ((bulk_insert_batch 7 (bytes "u") two 0 small).0.pending
        ≡ [] ++ (record { collection = bytes "u"; delta = pos 2; at = 7 } ∷ []))
unfolding batches
bulk_insert_batch-stored_example =
    bulk_insert_batch-stored tables-IsLawful 7 0 (bytes "u") two small
      (bulk_insert_batch 7 (bytes "u") two 0 small).0 (bytes "u_7_0" ∷ bytes "u_7_1" ∷ []) refl
