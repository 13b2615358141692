-- ===== src/Jsondb/Pages.antt =====
-- lsengine/internal/jsondb/engine.go: what a page holds, and what it leaves out.
use lsengine_js.Base.{
  ℕ, ltb, ◌%◌, if◌then◌else◌, zero, suc, ◌+◌, ◌*◌, ◌/◌, ◌≤◌, ◌<◌, ◌≡◌, refl, ap, subst, some, ◌∙◌,
  inl, inr, false, Option, List, [], ◌∷◌, arith, length, get_elem?, take, length-append,
  length-take, All, All-append, All-take, Text, ℤ, Option-cases,
}
use lsengine_js.Jsondb.Backend.{
  Document, Row, JsonCollection, Backend, IsLawful, JsonEngine, Result, ok, err, panic,
}
use lsengine_js.Jsondb.Engine.{get_collection}
use lsengine_js.Jsondb.Shown.{Shows, Shows-sort_latest, Shows-take, Shows-collect}
use lsengine_js.Jsondb.Page.{
  JsonDocument, PageResult, clamp_page_size, page_offset, insert_latest, sort_latest, shards_needed,
  shard_offset, shard_limit, to_documents, query_shard, collect, page_of, page_result, find_page,
}

-- Latest first.
abbrev pub IsLatestFirst : List JsonDocument → Type 0
IsLatestFirst [] = Unit
IsLatestFirst (d ∷ docs) = All (λ x. x.updated_at ≤ d.updated_at) docs × IsLatestFirst docs

insert_latest-All {κ} :
    (P : JsonDocument → Type κ) (d : JsonDocument) (docs : List JsonDocument)
    → P d
    → All P docs
    → All P (insert_latest d docs)
unfolding insert_latest
insert_latest-All P d [] p h = (p, tt)
insert_latest-All P d (x ∷ docs) p h = ground (arith, insert_latest-All P d docs p h.1)

sort_latest-All {κ} :
    (P : JsonDocument → Type κ) (docs : List JsonDocument) → All P docs → All P (sort_latest docs)
unfolding sort_latest
sort_latest-All P [] h = tt
sort_latest-All P (d ∷ docs) h =
    insert_latest-All P d (sort_latest docs) h.0 (sort_latest-All P docs h.1)

All-le :
    (m n : ℕ) (docs : List JsonDocument)
    → m ≤ n
    → All (λ x. x.updated_at ≤ m) docs
    → All (λ x. x.updated_at ≤ n) docs
All-le m n [] p h = tt
All-le m n (d ∷ docs) p h = (omega arith, All-le m n docs p h.1)

insert_latest-IsLatestFirst :
    (d : JsonDocument) (docs : List JsonDocument)
    → IsLatestFirst docs
    → IsLatestFirst (insert_latest d docs)
unfolding insert_latest
insert_latest-IsLatestFirst d [] h = (tt, tt)
insert_latest-IsLatestFirst d (x ∷ docs) h = ground (
  arith,
  insert_latest-IsLatestFirst d docs h.1,
  insert_latest-All (λ y. y.updated_at ≤ x.updated_at) d docs,
  All-le x.updated_at d.updated_at docs,
)

sort_latest-IsLatestFirst : (docs : List JsonDocument) → IsLatestFirst (sort_latest docs)
unfolding sort_latest
sort_latest-IsLatestFirst [] = tt
sort_latest-IsLatestFirst (d ∷ docs) =
    insert_latest-IsLatestFirst d (sort_latest docs) (sort_latest-IsLatestFirst docs)

take-IsLatestFirst :
    (n : ℕ) (docs : List JsonDocument) → IsLatestFirst docs → IsLatestFirst (take n docs)
take-IsLatestFirst zero docs h = tt
take-IsLatestFirst (suc n) [] h = tt
take-IsLatestFirst (suc n) (d ∷ docs) h =
    (All-take (λ x. x.updated_at ≤ d.updated_at) n docs h.0, take-IsLatestFirst n docs h.1)

length-insert_latest :
    (d : JsonDocument) (docs : List JsonDocument)
    → length (insert_latest d docs) ≡ suc (length docs)
unfolding insert_latest
length-insert_latest d [] = refl
length-insert_latest d (x ∷ docs) = ground (arith, length-insert_latest d docs)

length-sort_latest : (docs : List JsonDocument) → length (sort_latest docs) ≡ length docs
unfolding sort_latest
length-sort_latest [] = refl
length-sort_latest (d ∷ docs) =
    omega (arith, length-insert_latest d (sort_latest docs), length-sort_latest docs)

-- The shards that answer: each is one that was asked, and they are as many.
abbrev pub IsArrival : ℕ → List ℕ → Type 0
IsArrival needed arrivals = (length arrivals ≡ needed) × All (λ i. i < needed) arrivals

length-to_documents :
    (u : Text → Option Document) (i : ℕ) (rows : List Row)
    → length (to_documents u i rows) ≡ length rows
length-to_documents u i [] = refl
length-to_documents u i (r ∷ rows) = omega (arith, length-to_documents u i rows)

-- The document shows a row of the collection, which stands under its identifier in the shard of its number,
-- one of the first `m`.
abbrev pub IsFrom : (b : Backend) → List b.Shard → Text → ℕ → JsonDocument → Type 0
IsFrom b shards c m d =
    (d.shard_id < m)
    × ((s : b.Shard) × (r : Row) × (get_elem? shards d.shard_id ≡ some s)
        × (b.row s d.id ≡ some r)
        × (r.collection ≡ c)
        × (d.fields ≡ b.unmarshal r.body)
        × (d.created_at ≡ r.created_at)
        × (d.updated_at ≡ r.updated_at))

to_documents-IsFrom :
    (b : Backend) (shards : List b.Shard) (c : Text) (m i : ℕ) (s : b.Shard) (rows : List Row)
    → i < m
    → get_elem? shards i ≡ some s
    → All (λ r. b.row s r.id ≡ some r) rows
    → All (λ r. r.collection ≡ c) rows
    → All (IsFrom b shards c m) (to_documents b.unmarshal i rows)
to_documents-IsFrom b shards c m i s [] small h held own = tt
to_documents-IsFrom b shards c m i s (r ∷ rows) small h held own = (
  (small, (s, r, h, held.0, own.0, refl, refl, refl)),
  to_documents-IsFrom b shards c m i s rows small h held.1 own.1,
)

module _ {b : Backend} (law : IsLawful b) (e : JsonEngine b) (name : Text) (offset size : ℕ) where
  query_shard-IsFrom :
      (m i : ℕ) → i < m → All (IsFrom b e.shards name m) (query_shard e name offset size i)
  unfolding query_shard
  query_shard-IsFrom m i small = elim (Option-cases (get_elem? e.shards i)) [
    | inl h ↦ rw (query_shard, h) tt
    | inr (s, h) ↦
        elim (Option-cases (b.select_page name (shard_limit e size) (shard_offset e offset i) s)) [
          | inl k ↦ rw (query_shard, h, k) tt
          | inr (rows, k) ↦
              rw (query_shard, h, k)
                (to_documents-IsFrom b e.shards name m i s rows small h
                  (law.select_page-row name (shard_limit e size) (shard_offset e offset i) s rows k)
                  (law.select_page-collection name (shard_limit e size) (shard_offset e offset i) s
                    rows k))
        ]
  ]

  length-query_shard-le : (i : ℕ) → length (query_shard e name offset size i) ≤ shard_limit e size
  unfolding query_shard
  length-query_shard-le i = elim (Option-cases (get_elem? e.shards i)) [
    | inl h ↦ rw (query_shard, h) (omega arith)
    | inr (s, h) ↦
        elim (Option-cases (b.select_page name (shard_limit e size) (shard_offset e offset i) s)) [
          | inl k ↦ rw (query_shard, h, k) (omega arith)
          | inr (rows, k) ↦
              rw (query_shard, h, k)
                (omega (
                  arith,
                  length-to_documents b.unmarshal i rows,
                  law.length-select_page-le name (shard_limit e size) (shard_offset e offset i) s
                      rows k,
                ))
        ]
  ]

  collect-IsFrom :
      (m : ℕ) (arrivals : List ℕ)
      → All (λ i. i < m) arrivals
      → All (IsFrom b e.shards name m) (collect e name offset size arrivals)
  unfolding collect
  collect-IsFrom m [] h = tt
  collect-IsFrom m (i ∷ arrivals) h =
      All-append (IsFrom b e.shards name m) (query_shard e name offset size i)
        (collect e name offset size arrivals) (query_shard-IsFrom m i h.0)
        (collect-IsFrom m arrivals h.1)

  length-collect-le :
      (arrivals : List ℕ)
      → length (collect e name offset size arrivals) ≤ length arrivals * shard_limit e size
  unfolding collect
  length-collect-le [] = omega arith
  length-collect-le (i ∷ arrivals) = grind (
    arith,
    length-append (query_shard e name offset size i) (collect e name offset size arrivals),
    length-query_shard-le i,
    length-collect-le arrivals,
  )

  -- A page is sorted, holds at most `size` documents, and only such as stand in one of the shards that
  -- were asked; it holds at most the limit of one shard for each of them.
  page_of_bounds :
      (m : ℕ) (arrivals : List ℕ)
      → IsArrival m arrivals
      → IsLatestFirst (page_of e name offset size arrivals).documents
        × (length (page_of e name offset size arrivals).documents ≤ size)
        × (length (page_of e name offset size arrivals).documents ≤ m * shard_limit e size)
        × All (IsFrom b e.shards name m) (page_of e name offset size arrivals).documents
        × (length (page_of e name offset size arrivals).documents < size
            → (j i : ℕ) (s : b.Shard) (rows : List Row) (k : ℕ) (r : Row)
            → get_elem? arrivals j ≡ some i
            → get_elem? e.shards i ≡ some s
            → b.select_page name (shard_limit e size) (shard_offset e offset i) s ≡ some rows
            → get_elem? rows k ≡ some r
            → Shows i r (page_of e name offset size arrivals).documents)
  unfolding page_of
  page_of_bounds m arrivals a =
      let docs = collect e name offset size arrivals in
      (
        take-IsLatestFirst size (sort_latest docs) (sort_latest-IsLatestFirst docs),
        omega (arith, length-take size (sort_latest docs)),
        omega (
          arith,
          length-take size (sort_latest docs),
          length-sort_latest docs,
          length-collect-le arrivals,
          ap (λ (t : ℕ). t * shard_limit e size) a.0,
        ),
        All-take (IsFrom b e.shards name m) size (sort_latest docs)
            (sort_latest-All (IsFrom b e.shards name m) docs (collect-IsFrom m arrivals a.1)),
        (λ short j i s rows k r asked there selected at.
            Shows-take i r size (sort_latest docs) short (
              Shows-sort_latest i r docs (
                Shows-collect e name offset size arrivals j i s rows k r asked there selected at))),
      )

limit_at : (n size count m k : ℕ) → count ≡ k → n ≤ m * (size / count + 1) → n ≤ m * (size / k + 1)
limit_at n size count m k h few = rw (← h) few

module _ {b : Backend} where
  one_shard :
      (e : JsonEngine b) (offset size : ℕ)
      → e.page_size ≡ 1000
      → e.shard_count ≡ 16
      → offset + size ≤ 1000
      → 0 < size
      → shards_needed e offset size ≡ 1
  one_shard e offset size p q near some_size = rw (p, q) (omega arith)

  page_of-page_size :
      (e : JsonEngine b) (name : Text) (offset size : ℕ) (arrivals : List ℕ)
      → (page_of e name offset size arrivals).page_size ≡ size
  unfolding page_of
  page_of-page_size e name offset size arrivals = refl

  no_more :
      (e : JsonEngine b) (name : Text) (offset size : ℕ) (arrivals : List ℕ)
      → 2 ≤ size
      → length (page_of e name offset size arrivals).documents ≤ size / 16 + 1
      → (page_of e name offset size arrivals).has_more ≡ false
  unfolding page_of
  no_more e name offset size arrivals two few = ground arith

module _ {b : Backend} (law : IsLawful b) (e e' : JsonEngine b) where
  -- `getCollection` changes the cache alone.
  pub get_collection-shards :
      (name : Text) (r : Result JsonCollection)
      → get_collection name e ≡ (e', r)
      → (e'.shards ≡ e.shards)
        × (e'.shard_count ≡ e.shard_count)
        × (e'.page_size ≡ e.page_size)
        × (e'.pending ≡ e.pending)
  unfolding get_collection
  get_collection-shards name r h = ground arith

  pub clamp_page_size_bounds :
      (size : ℤ) → (0 < clamp_page_size size) × (clamp_page_size size ≤ 1000)
  clamp_page_size_bounds size = ground arith

  page_inversion :
      (arrivals : List ℕ) (collection : Text) (page : ℤ) (size : ℕ) (p : PageResult)
      (g : JsonEngine b × Result JsonCollection)
      → get_collection collection e ≡ g
      → ◌≡◌ {A = JsonEngine b × Result PageResult}
          (g.0, page_result g.1 (λ c. page_of g.0 c.name (page_offset page size) size arrivals))
          (e', ok p)
      → (c : JsonCollection) × (p ≡ page_of e' c.name (page_offset page size) size arrivals)
        × (get_collection collection e ≡ (e', ok c))
  page_inversion arrivals collection page size p (e1, ok c) h k = (c, cc, cc)
  page_inversion arrivals collection page size p (e1, err x) h k = absurd (ground arith)
  page_inversion arrivals collection page size p (e1, panic) h k = absurd (ground arith)

  -- Every page that is returned: at most `pageSize` documents, which is at most 1000, latest first, and for
  -- each of the shards that were asked at most the page size over the number of the shards, and one more. Each
  -- document shows a row of the collection that stands, under the identifier of the document, in the shard that
  -- the document names, which is one of those asked; and where the page is not full, each row that a shard that
  -- answered selected is shown.
  pub find_page_bounds :
      (arrivals : List ℕ) (collection : Text) (query : Document) (page page_size : ℤ)
      (p : PageResult)
      → IsArrival
          (shards_needed e
            (page_offset page (clamp_page_size page_size))
            (clamp_page_size page_size))
          arrivals
      → find_page arrivals collection query page page_size e ≡ (e', ok p)
      → (p.page_size ≡ clamp_page_size page_size)
        × (clamp_page_size page_size ≤ 1000)
        × (length p.documents ≤ clamp_page_size page_size)
        × IsLatestFirst p.documents
        × (length p.documents
            ≤ shards_needed e
                (page_offset page (clamp_page_size page_size))
                (clamp_page_size page_size)
              * (clamp_page_size page_size / e.shard_count + 1))
        × ((c : JsonCollection) × ((get_collection collection e).1 ≡ ok c)
            × All
                (IsFrom b e.shards c.name (
                  shards_needed e
                    (page_offset page (clamp_page_size page_size))
                    (clamp_page_size page_size)))
                p.documents
            × (length p.documents < clamp_page_size page_size
                → (j i : ℕ) (s : b.Shard) (rows : List Row) (k : ℕ) (r : Row)
                → get_elem? arrivals j ≡ some i
                → get_elem? e.shards i ≡ some s
                → b.select_page c.name
                    (clamp_page_size page_size / e.shard_count + 1)
                    (shard_offset e (page_offset page (clamp_page_size page_size)) i)
                    s
                  ≡ some rows
                → get_elem? rows k ≡ some r
                → Shows i r p.documents))
  unfolding find_page
  find_page_bounds arrivals collection query page page_size p a h =
      let size = clamp_page_size page_size in
      let offset = page_offset page size in
      let needed = shards_needed e offset size in
      let (c, ep, g) =
        page_inversion arrivals collection page size p (get_collection collection e) refl h in
      let (es, ec, eps, en) = get_collection-shards collection (ok c) g in
      let (sorted, fits, few, asked, shown) =
        page_of_bounds law e' c.name offset size needed arrivals a in
      rw ep (
        page_of-page_size e' c.name offset size arrivals,
        (clamp_page_size_bounds page_size).1,
        fits,
        sorted,
        limit_at (length (page_of e' c.name offset size arrivals).documents) size e'.shard_count
            needed e.shard_count ec few,
        (
          c,
          ap (λ (x : JsonEngine b × Result JsonCollection). x.1) g,
          subst
              (λ l.
                All (IsFrom b l c.name needed) (page_of e' c.name offset size arrivals).documents)
              es asked,
          (λ short j i s rows k r answered there selected at.
              shown short j i s rows k r answered (ap (λ l. get_elem? l i) es ∙ there)
                (ap
                    (λ n.
                      b.select_page c.name (size / n + 1)
                        (if ltb i (offset % n) then offset / n + 1 else offset / n) s)
                    ec
                  ∙ selected)
                at),
        ),
      )

  -- With the configured 1000 documents for a shard and 16 shards, a page of two or more that ends at or before
  -- document 1000 comes from the first shard alone: each of its documents shows a row that stands there, it
  -- holds at most a sixteenth of the page size and one document, and it says that there is no more.
  pub find_page-first_shard :
      (arrivals : List ℕ) (collection : Text) (query : Document) (page page_size : ℤ)
      (p : PageResult)
      → e.page_size ≡ 1000
      → e.shard_count ≡ 16
      → page_offset page (clamp_page_size page_size) + clamp_page_size page_size ≤ 1000
      → 2 ≤ clamp_page_size page_size
      → IsArrival
          (shards_needed e
            (page_offset page (clamp_page_size page_size))
            (clamp_page_size page_size))
          arrivals
      → find_page arrivals collection query page page_size e ≡ (e', ok p)
      → ((c : JsonCollection) × ((get_collection collection e).1 ≡ ok c)
          × All (IsFrom b e.shards c.name 1) p.documents)
        × (length p.documents ≤ clamp_page_size page_size / 16 + 1)
        × (p.has_more ≡ false)
  unfolding find_page
  find_page-first_shard arrivals collection query page page_size p eps esc near two a h =
      let size = clamp_page_size page_size in
      let offset = page_offset page size in
      let one : shards_needed e offset size ≡ 1 =
        one_shard e offset size eps esc near (omega arith) in
      let (c, ep, g) =
        page_inversion arrivals collection page size p (get_collection collection e) refl h in
      let (es, ec, e2, en) = get_collection-shards collection (ok c) g in
      let (sorted, fits, few, asked, shown) =
        page_of_bounds law e' c.name offset size 1 arrivals (rw one at a) in
      let few' : length (page_of e' c.name offset size arrivals).documents ≤ size / 16 + 1 =
        let few'' =
          limit_at (length (page_of e' c.name offset size arrivals).documents) size e'.shard_count 1
            16 (ec ∙ esc) few in
        omega arith in
      let there =
        subst (λ l. All (IsFrom b l c.name 1) (page_of e' c.name offset size arrivals).documents) es
          asked in
      rw ep (
        (c, ap (λ (x : JsonEngine b × Result JsonCollection). x.1) g, there),
        few',
        no_more e' c.name offset size arrivals two few',
      )
