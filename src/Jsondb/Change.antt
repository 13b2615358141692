-- ===== src/Jsondb/Change.antt =====
-- lsengine/internal/jsondb/engine.go: `Update` and `Delete`, and what they do to the documents.
use mathlib.Core.Option.{some-injective}
use lsengine_js.Base.{
  sym, ◌⊎◌, lookup, IsDistinct, lookup-insert, ℕ, suc, ◌%◌, ◌≡◌, ◌≢◌, refl, inl, inr, Option, none,
  some, List, [], ◌∷◌, ◌++◌, arith, if◌then◌else◌, Text, bytes, text_eq, text_eq_iff, text_eq_refl,
  get_elem?, zero, ◌==◌, Option-cases, insert, negsuc,
}
use lsengine_js.Jsondb.Backend.{
  Document, Row, Backend, IsLawful, JsonEngine, database_error, Result, ok, err, panic,
}
use lsengine_js.Hash.{fnv_hash}
use lsengine_js.Jsondb.Engine.{set_shard, get_shard, count_op, count_error, enqueue}

-- `for k, v := range update { doc[k] = v }`
unfoldable pub merge : Document → Document → Document
merge [] doc = doc
merge ((k, v) ∷ update) doc = merge update (insert k v doc)

-- The new text of a document. An assignment to a nil map panics, which is `none`; with nothing to
-- assign the nil map is written as `null`.
unfoldable pub updated_body : (Document → Text) → Option Document → Document → Option Text
unfolding merge
updated_body marshal (some doc) update = some (marshal (merge update doc))
updated_body marshal none [] = some (bytes "null")
updated_body marshal none (entry ∷ update) = none

module _ {b : Backend} where
  abbrev pub write_back : JsonEngine b → ℕ → Option b.Shard → JsonEngine b × Result (Unit {0})
  write_back e i none = (count_error e, err database_error)
  write_back e i (some s) = (record e { shards = set_shard e.shards i s }, ok tt)

  update_shard : ℕ → Text → Document → JsonEngine b → ℕ → b.Shard → JsonEngine b × Result (Unit {0})
  unfolding updated_body
  update_shard now id update e i s = elim (b.row s id) [
    | none ↦ (count_error e, err database_error)
    | some r ↦ elim (updated_body b.marshal (b.unmarshal r.body) update) [
      | none ↦ (e, panic)
      | some body ↦ write_back e i (b.update_row id body now s)
    ]
  ]

  -- `SELECT data` gives the row's text, or `sql.ErrNoRows`.
  unfoldable pub update_document :
      ℕ → Text → Text → Document → JsonEngine b → JsonEngine b × Result (Unit {0})
  unfolding get_shard update_shard
  update_document now collection id update before =
      let e = count_op before in
      let i = get_shard e id collection in
      elim (get_elem? e.shards i) [ none ↦ (e, panic) | some s ↦ update_shard now id update e i s ]

  abbrev pub deleted :
      ℕ → Text → JsonEngine b → ℕ → Option b.Shard → JsonEngine b × Result (Unit {0})
  deleted now collection e i none = (count_error e, err database_error)
  deleted now collection e i (some s) = (
    enqueue (record { collection = collection; delta = negsuc 0; at = now })
        (record e { shards = set_shard e.shards i s }),
    ok tt,
  )

  unfoldable pub delete_document : ℕ → Text → Text → JsonEngine b → JsonEngine b × Result (Unit {0})
  unfolding get_shard
  delete_document now collection id before =
      let e = count_op before in
      let i = get_shard e id collection in
      elim (get_elem? e.shards i) [
        | none ↦ (e, panic)
        | some s ↦ deleted now collection e i (b.delete_row id s)
      ]

  -- The document that the engine finds under a collection and an identifier.
  unfoldable pub stored : JsonEngine b → Text → Text → Option Row
  unfolding get_shard
  stored e collection id = elim (get_elem? e.shards (get_shard e id collection)) [
    | none ↦ none
    | some s ↦ b.row s id
  ]

get_elem?-set_shard {ℓ} :
    {A : Type ℓ} (xs : List A) (i j : ℕ) (v x : A)
    → get_elem? xs i ≡ some x
    → get_elem? (set_shard xs i v) j ≡ (if i == j then some v else get_elem? xs j)
get_elem?-set_shard [] i j v x h = ground arith
get_elem?-set_shard (y ∷ xs) zero zero v x h = refl
get_elem?-set_shard (y ∷ xs) zero (suc j) v x h = ground arith
get_elem?-set_shard (y ∷ xs) (suc i) zero v x h = ground arith
get_elem?-set_shard (y ∷ xs) (suc i) (suc j) v x h =
    ground (arith, get_elem?-set_shard xs i j v x h)

abbrev pub fall_back {ℓ} : {A : Type ℓ} → Option A → Option A → Option A
fall_back none old = old
fall_back (some v) old = some v

lookup-merge :
    (update doc : Document) (key : Text)
    → IsDistinct update
    → lookup key (merge update doc) ≡ fall_back (lookup key update) (lookup key doc)
unfolding merge lookup
lookup-merge [] doc key h = refl
lookup-merge ((k, v) ∷ update) doc key h = ground (
  arith,
  lookup-merge update (insert k v doc) key h.1,
  lookup-insert k key v doc,
  text_eq_iff k key,
  h.0,
)

updated_body-merged :
    (marshal : Document → Text) (old : Option Document) (update : Document) (body : Text)
    → IsDistinct update
    → updated_body marshal old update ≡ some body
    → ((doc : Document) × (new : Document) × (old ≡ some doc)
        × (body ≡ marshal new)
        × ((key : Text) → lookup key new ≡ fall_back (lookup key update) (lookup key doc)))
      ⊎ ((old ≡ none) × (update ≡ []) × (body ≡ bytes "null"))
unfolding updated_body
updated_body-merged marshal (some doc) update body h e =
    inl (
      doc,
      merge update doc,
      refl,
      sym (some-injective _ _ e),
      λ key. lookup-merge update doc key h,
    )
updated_body-merged marshal none [] body h e = inr (refl, refl, sym (some-injective _ _ e))
updated_body-merged marshal none (entry ∷ update) body h e = absurd (ground arith)

module _ {b : Backend} (law : IsLawful b) (e : JsonEngine b) where
  -- After a write to the shard of one document, a lookup sees the new shard there and the old ones
  -- elsewhere.
  pub stored-set_shard :
      (i : ℕ) (s t : b.Shard) (e' : JsonEngine b) (c q : Text)
      → get_elem? e.shards i ≡ some s
      → e'.shards ≡ set_shard e.shards i t
      → e'.shard_count ≡ e.shard_count
      → stored e' c q ≡ (if i == get_shard e q c then b.row t q else stored e c q)
  unfolding stored
  stored-set_shard i s t e' c q h es ec =
      rw
        (
          stored,
          es,
          ec,
          get_elem?-set_shard e.shards i (fnv_hash (c ++ (bytes ":" ++ q)) % e.shard_count) t s h,
        )
        (ground arith)

  delete_inversion :
      (now : ℕ) (collection id : Text) (e' : JsonEngine b)
      → delete_document now collection id e ≡ (e', ok tt)
      → (s t : b.Shard) × (get_elem? e.shards (get_shard e id collection) ≡ some s)
        × (b.delete_row id s ≡ some t)
        × (e'.shards ≡ set_shard e.shards (get_shard e id collection) t)
        × (e'.shard_count ≡ e.shard_count)
        × (e'.pending
            ≡ e.pending ++ (record { collection = collection; delta = negsuc 0; at = now } ∷ []))
  unfolding delete_document
  delete_inversion now collection id e' done =
      elim (Option-cases (get_elem? e.shards (get_shard e id collection))) [
        | inl h ↦ absurd (ground arith)
        | inr (s, h) ↦ elim (Option-cases (b.delete_row id s)) [
          | inl k ↦ absurd (ground arith)
          | inr (t, k) ↦ (s, t, h, k, ground arith, ground arith, ground arith)
        ]
      ]

  -- A delete that succeeds removes the document under its identifier, keeps every other document of
  -- every collection, and starts a decrement of the count whether there was a document or not.
  pub delete_document-stored :
      (now : ℕ) (collection id : Text) (e' : JsonEngine b)
      → delete_document now collection id e ≡ (e', ok tt)
      → (stored e' collection id ≡ none)
        × ((c q : Text) → q ≢ id → stored e' c q ≡ stored e c q)
        × (e'.pending
            ≡ e.pending ++ (record { collection = collection; delta = negsuc 0; at = now } ∷ []))
  unfolding stored
  delete_document-stored now collection id e' done =
      let (s, t, h, k, es, ec, ep) = delete_inversion now collection id e' done in
      let i = get_shard e id collection in
      (
        rw (stored-set_shard i s t e' collection id h es ec, law.row-delete_row id s t id k)
            (ground (arith, text_eq_refl id)),
        (λ c q ne.
            rw (stored-set_shard i s t e' c q h es ec, law.row-delete_row id s t q k)
              (ground (arith, text_eq_iff id q))),
        ep,
      )

  stored_here :
      (c q : Text) (s : b.Shard)
      → get_elem? e.shards (get_shard e q c) ≡ some s
      → stored e c q ≡ b.row s q
  unfolding stored
  stored_here c q s h = rw (stored, h)

  other_row :
      (c q id : Text) (s : b.Shard) (i now : ℕ) (body : Text)
      → q ≢ id
      → get_elem? e.shards i ≡ some s
      → (if i == get_shard e q c
          then (if text_eq id q
              then elim (b.row s q) [
                | none ↦ none
                | some r ↦ some (record r { body = body; updated_at = now })
              ]
              else b.row s q)
          else stored e c q)
        ≡ stored e c q
  other_row c q id s i now body ne h = ground (arith, text_eq_iff id q, stored_here c q s)

  update_inversion :
      (now : ℕ) (collection id : Text) (update : Document) (e' : JsonEngine b)
      → update_document now collection id update e ≡ (e', ok tt)
      → (s t : b.Shard) × (r : Row) × (body : Text) × (get_elem? e.shards
            (get_shard e id collection)
          ≡ some s)
        × (b.row s id ≡ some r)
        × (updated_body b.marshal (b.unmarshal r.body) update ≡ some body)
        × (b.update_row id body now s ≡ some t)
        × (e'.shards ≡ set_shard e.shards (get_shard e id collection) t)
        × (e'.shard_count ≡ e.shard_count)
        × (e'.pending ≡ e.pending)
  unfolding update_document
  update_inversion now collection id update e' done =
      elim (Option-cases (get_elem? e.shards (get_shard e id collection))) [
        | inl h ↦ absurd (ground arith)
        | inr (s, h) ↦ elim (Option-cases (b.row s id)) [
          | inl k ↦ absurd (ground arith)
          | inr (r, k) ↦ elim (Option-cases (updated_body b.marshal (b.unmarshal r.body) update)) [
            | inl m ↦ absurd (ground arith)
            | inr (body, m) ↦ elim (Option-cases (b.update_row id body now s)) [
              | inl n ↦ absurd (ground arith)
              | inr (t, n) ↦ (s, t, r, body, h, k, m, n, ground arith, ground arith, ground arith)
            ]
          ]
        ]
      ]

  -- An update that succeeds found the document: what it writes has each field of the update, and every other
  -- field as it was, or is `null` where the old text was no document and nothing is assigned. It sets the
  -- time, and keeps every other document and all counts. The fields of the update have distinct names.
  pub update_document-stored :
      (now : ℕ) (collection id : Text) (update : Document) (e' : JsonEngine b)
      → IsDistinct update
      → update_document now collection id update e ≡ (e', ok tt)
      → (r : Row) × (body : Text) × (stored e collection id ≡ some r)
        × (stored e' collection id ≡ some (record r { body = body; updated_at = now }))
        × (((old : Document) × (new : Document) × (b.unmarshal r.body ≡ some old)
              × (body ≡ b.marshal new)
              × ((key : Text) → lookup key new ≡ fall_back (lookup key update) (lookup key old)))
            ⊎ ((b.unmarshal r.body ≡ none) × (update ≡ []) × (body ≡ bytes "null")))
        × ((c q : Text) → q ≢ id → stored e' c q ≡ stored e c q)
        × (e'.pending ≡ e.pending)
  update_document-stored now collection id update e' distinct done =
      let (s, t, r, body, h, k, m, n, es, ec, ep) =
        update_inversion now collection id update e' done in
      let i = get_shard e id collection in
      (
        r,
        body,
        rw (stored_here collection id s h) k,
        rw
            (
              stored-set_shard i s t e' collection id h es ec,
              law.row-update_row id body now s t id n,
              k,
            )
            (ground (arith, text_eq_refl id)),
        updated_body-merged b.marshal (b.unmarshal r.body) update body distinct m,
        (λ c q ne.
            rw (stored-set_shard i s t e' c q h es ec, law.row-update_row id body now s t q n)
              (other_row c q id s i now body ne h)),
        ep,
      )
