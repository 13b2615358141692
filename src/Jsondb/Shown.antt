-- ===== src/Jsondb/Shown.antt =====
-- lsengine/internal/jsondb/engine.go, `FindPage`: the rows that the shards give are on a page that is not full.
use lsengine_js.Base.{
  ℕ, zero, suc, ◌<◌, ◌≡◌, refl, sym, ap, subst, ◌⊎◌, inl, inr, Option, some, List, [], ◌∷◌, ◌++◌,
  arith, length, get_elem?, take, Text, ltb, Bool-cases, if_true, if_false,
}
use mathlib.Core.Option.{some-injective}
use lsengine_js.Jsondb.Backend.{Document, Row, Backend, JsonEngine}
use lsengine_js.Jsondb.Page.{
  JsonDocument, insert_latest, sort_latest, shard_offset, shard_limit, to_documents, query_shard,
  collect,
}

-- A document of the list shows the row of the shard.
abbrev pub Shows : ℕ → Row → List JsonDocument → Type 0
Shows i r [] = ⊥
Shows i r (d ∷ docs) = ((d.id ≡ r.id) × (d.shard_id ≡ i)) ⊎ Shows i r docs

Shows-append_left :
    (i : ℕ) (r : Row) (docs more : List JsonDocument) → Shows i r docs → Shows i r (docs ++ more)
Shows-append_left i r [] more h = absurd h
Shows-append_left i r (d ∷ docs) more (inl h) = inl h
Shows-append_left i r (d ∷ docs) more (inr h) = inr (Shows-append_left i r docs more h)

Shows-append_right :
    (i : ℕ) (r : Row) (docs more : List JsonDocument) → Shows i r more → Shows i r (docs ++ more)
Shows-append_right i r [] more h = h
Shows-append_right i r (d ∷ docs) more h = inr (Shows-append_right i r docs more h)

Shows-insert_latest :
    (i : ℕ) (r : Row) (d : JsonDocument) (docs : List JsonDocument)
    → Shows i r (d ∷ docs)
    → Shows i r (insert_latest d docs)
unfolding insert_latest
Shows-insert_latest i r d [] h = h
Shows-insert_latest i r d (x ∷ docs) h = elim (Bool-cases (ltb d.updated_at x.updated_at)) [
  | inl e ↦ subst (Shows i r) (sym (if_true _ _ _ e)) (past h (Shows-insert_latest i r d docs))
  | inr e ↦ subst (Shows i r) (sym (if_false _ _ _ e)) h
]
  where
    past :
        Shows i r (d ∷ x ∷ docs)
        → (Shows i r (d ∷ docs) → Shows i r (insert_latest d docs))
        → Shows i r (x ∷ insert_latest d docs)
    past (inl k) on = inr (on (inl k))
    past (inr (inl k)) on = inl k
    past (inr (inr k)) on = inr (on (inr k))

pub Shows-sort_latest :
    (i : ℕ) (r : Row) (docs : List JsonDocument) → Shows i r docs → Shows i r (sort_latest docs)
unfolding sort_latest
Shows-sort_latest i r [] h = absurd h
Shows-sort_latest i r (d ∷ docs) (inl h) = Shows-insert_latest i r d (sort_latest docs) (inl h)
Shows-sort_latest i r (d ∷ docs) (inr h) =
    Shows-insert_latest i r d (sort_latest docs) (inr (Shows-sort_latest i r docs h))

-- A list that is shorter than the number taken is taken whole.
pub Shows-take :
    (i : ℕ) (r : Row) (n : ℕ) (docs : List JsonDocument)
    → length (take n docs) < n
    → Shows i r docs
    → Shows i r (take n docs)
Shows-take i r zero docs short h = absurd (omega (arith, short))
Shows-take i r (suc n) [] short h = h
Shows-take i r (suc n) (d ∷ docs) short (inl h) = inl h
Shows-take i r (suc n) (d ∷ docs) short (inr h) =
    inr (Shows-take i r n docs (omega (arith, short)) h)

Shows-to_documents :
    (u : Text → Option Document) (i : ℕ) (rows : List Row) (k : ℕ) (r : Row)
    → get_elem? rows k ≡ some r
    → Shows i r (to_documents u i rows)
Shows-to_documents u i [] k r h = absurd (ground (arith, h))
Shows-to_documents u i (x ∷ rows) zero r h =
    inl (ap (λ (x : Row). x.id) (some-injective _ _ h), refl)
Shows-to_documents u i (x ∷ rows) (suc k) r h = inr (Shows-to_documents u i rows k r h)

module _ {b : Backend} (e : JsonEngine b) (name : Text) (offset size : ℕ) where
  Shows-query_shard :
      (i : ℕ) (s : b.Shard) (rows : List Row) (k : ℕ) (r : Row)
      → get_elem? e.shards i ≡ some s
      → b.select_page name (shard_limit e size) (shard_offset e offset i) s ≡ some rows
      → get_elem? rows k ≡ some r
      → Shows i r (query_shard e name offset size i)
  unfolding query_shard
  Shows-query_shard i s rows k r h selected at =
      rw (query_shard, h, selected) (Shows-to_documents b.unmarshal i rows k r at)

  -- What a shard that answered selected is among the documents that were collected.
  pub Shows-collect :
      (arrivals : List ℕ) (j i : ℕ) (s : b.Shard) (rows : List Row) (k : ℕ) (r : Row)
      → get_elem? arrivals j ≡ some i
      → get_elem? e.shards i ≡ some s
      → b.select_page name (shard_limit e size) (shard_offset e offset i) s ≡ some rows
      → get_elem? rows k ≡ some r
      → Shows i r (collect e name offset size arrivals)
  unfolding collect
  Shows-collect [] j i s rows k r asked h selected at = absurd (ground (arith, asked))
  Shows-collect (a ∷ arrivals) zero i s rows k r asked h selected at =
      Shows-append_left i r (query_shard e name offset size a) (collect e name offset size arrivals)
        (subst (λ x. Shows i r (query_shard e name offset size x)) (sym (some-injective _ _ asked))
          (Shows-query_shard i s rows k r h selected at))
  Shows-collect (a ∷ arrivals) (suc j) i s rows k r asked h selected at =
      Shows-append_right i r (query_shard e name offset size a)
        (collect e name offset size arrivals)
        (Shows-collect arrivals j i s rows k r asked h selected at)
