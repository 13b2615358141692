-- ===== src/Jsondb/Written.antt =====
-- lsengine/internal/jsondb/shard.go: what the transactions of a batch leave in the shards.
use mathlib.Core.Option.{some-injective}
use lsengine_js.Base.{
  ℕ, zero, suc, ◌+◌, ◌<◌, ◌≡◌, ◌≢◌, refl, sym, ◌∙◌, ap, subst, inl, inr, Bool, true, false, Option,
  none, some, List, [], ◌∷◌, arith, ◌==◌, get_elem?, All, Bool-cases, Option-cases, Text, text_eq,
  text_eq_iff, text_eq_refl, true-false, if_true, if_false,
}
use lsengine_js.Jsondb.Backend.{Document, Row, Backend, replaced, IsLawful, JsonEngine}
use lsengine_js.Jsondb.Engine.{get_shard, document_id}
use lsengine_js.Jsondb.Numbers.{document_id-number}
use lsengine_js.Jsondb.Bulk.{bulk_rows, rows_for, written, write_batches}

equal_itself : (n : ℕ) → (n == n) ≡ true
equal_itself n = ground arith

All-impl :
    {P Q : Row → Type 0} (rows : List Row) → ((r : Row) → P r → Q r) → All P rows → All Q rows
All-impl [] f h = tt
All-impl (r ∷ rows) f h = (f r h.0, All-impl rows f h.1)

-- No row has the identifier.
abbrev pub Lacks : Text → List Row → Type 0
Lacks id rows = All (λ r. r.id ≢ id) rows

pub replaced-Lacks :
    (id : Text) (rows : List Row) (old : Option Row) → Lacks id rows → replaced id rows old ≡ old
replaced-Lacks id [] old h = refl
replaced-Lacks id (r ∷ rows) old h =
    replaced-Lacks id rows _ h.1
    ∙ if_false (text_eq r.id id) (some r) _ (ground (arith, text_eq_iff r.id id, h.0))

bulk_rows-Lacks :
    (marshal : Document → Text) (now m base : ℕ) (c : Text) (docs : List Document)
    → m < base
    → Lacks (document_id c now m) (bulk_rows marshal now c base docs)
unfolding bulk_rows
bulk_rows-Lacks marshal now m base c [] h = tt
bulk_rows-Lacks marshal now m base c (doc ∷ docs) h = (
  (λ e. absurd (omega (arith, document_id-number c now base m e))),
  bulk_rows-Lacks marshal now m (suc base) c docs (omega arith),
)

-- The rows of a batch do not replace each other.
pub replaced-bulk_rows :
    (marshal : Document → Text) (now base : ℕ) (c : Text) (docs : List Document)
    → All
        (λ r. (old : Option Row) → replaced r.id (bulk_rows marshal now c base docs) old ≡ some r)
        (bulk_rows marshal now c base docs)
unfolding bulk_rows
replaced-bulk_rows marshal now base c [] = tt
replaced-bulk_rows marshal now base c (doc ∷ docs) = (
  (λ old.
      replaced-Lacks (document_id c now base) (bulk_rows marshal now c (suc base) docs) _
        (bulk_rows-Lacks marshal now base (suc base) c docs (omega arith))
      ∙ if_true _ _ _ (text_eq_refl (document_id c now base))),
  All-impl (bulk_rows marshal now c (suc base) docs) (λ r k old. k _)
      (replaced-bulk_rows marshal now (suc base) c docs),
)

module _ {b : Backend} (law : IsLawful b) (e : JsonEngine b) (c : Text) (rows : List Row) where
  pub replaced-rows_for :
      (id : Text) (rs : List Row) (old : Option Row)
      → replaced id (rows_for e c (get_shard e id c) rs) old ≡ replaced id rs old
  unfolding rows_for
  replaced-rows_for id [] old = refl
  replaced-rows_for id (r ∷ rs) old = elim (Bool-cases (get_shard e r.id c == get_shard e id c)) [
    | inl k ↦ ap (λ l. replaced id l old) (if_true _ _ _ k) ∙ replaced-rows_for id rs _
    | inr k ↦
        (let other : text_eq r.id id ≡ false = elim (Bool-cases (text_eq r.id id)) [
          | inl same ↦ absurd (
              true-false _ k (
                ap (λ t. get_shard e t c == get_shard e id c) ((text_eq_iff r.id id).0 same)
                ∙ equal_itself (get_shard e id c)))
          | inr ne ↦ ne
        ] in
          ap (λ l. replaced id l old) (if_false _ _ _ k)
          ∙ replaced-rows_for id rs old
          ∙ ap (replaced id rs) (sym (if_false _ _ _ other)))
  ]

  pub rows_for-Lacks :
      (id : Text) (i : ℕ) (rs : List Row) → Lacks id rs → Lacks id (rows_for e c i rs)
  unfolding rows_for
  rows_for-Lacks id i [] h = tt
  rows_for-Lacks id i (r ∷ rs) h = elim (Bool-cases (get_shard e r.id c == i)) [
    | inl k ↦ subst (Lacks id) (sym (if_true _ _ _ k)) (h.0, rows_for-Lacks id i rs h.1)
    | inr k ↦ subst (Lacks id) (sym (if_false _ _ _ k)) (rows_for-Lacks id i rs h.1)
  ]

  -- The shards after one more was written.
  abbrev with_head : b.Shard → List Row → List b.Shard × Bool → List b.Shard × Bool
  with_head s [] rest = written s (some s) rest
  with_head s (r ∷ rs) rest = written s (b.replace_rows (r ∷ rs) s) rest

  with_head-row :
      (s : b.Shard) (rs : List Row) (rest : List b.Shard × Bool)
      → (with_head s rs rest).1 ≡ true
      → (rest.1 ≡ true)
        × ((t : b.Shard) × ((with_head s rs rest).0 ≡ t ∷ rest.0)
            × ((id : Text) → b.row t id ≡ replaced id rs (b.row s id)))
  with_head-row s [] rest h = (h, (s, refl, λ id. refl))
  with_head-row s (r ∷ rs) rest h = elim (Option-cases (b.replace_rows (r ∷ rs) s)) [
    | inl e ↦ absurd (ground (arith, ap (λ o. (written s o rest).1) e, h))
    | inr (t, e) ↦ (
      ap (λ o. (written s o rest).1) (sym e) ∙ h,
      (t, ap (λ o. (written s o rest).0) e, λ id. law.row-replace_rows (r ∷ rs) s t id e),
    )
  ]

  write_batches-none : (i : ℕ) → write_batches e c rows i [] ≡ ([], true)
  unfolding write_batches
  write_batches-none i = refl

  write_batches-head :
      (s : b.Shard) (shards : List b.Shard) (i : ℕ)
      → write_batches e c rows i (s ∷ shards)
        ≡ with_head s (rows_for e c i rows) (write_batches e c rows (suc i) shards)
  unfolding write_batches
  write_batches-head s shards i = go (rows_for e c i rows)
    where
      go :
          (rs : List Row)
          → (elim rs [
            | [] ↦ written s (some s) (write_batches e c rows (suc i) shards)
            | r ∷ rs ↦ written s (b.replace_rows (r ∷ rs) s) (write_batches e c rows (suc i) shards)
          ])
            ≡ with_head s rs (write_batches e c rows (suc i) shards)
      go [] = refl
      go (r ∷ rs) = refl

  -- What the write of the shards from `i` on leaves at the place `k`.
  unfoldable pub At : ℕ → List b.Shard → ℕ → List b.Shard × Bool → Type 0
  At i shards k w =
      (get_elem? shards k ≡ none → get_elem? w.0 k ≡ none)
      × ((s : b.Shard)
          → get_elem? shards k ≡ some s
          → (t : b.Shard) × (get_elem? w.0 k ≡ some t)
            × ((id : Text) → b.row t id ≡ replaced id (rows_for e c (i + k) rows) (b.row s id)))

  pub write_batches-At :
      (shards : List b.Shard) (i k : ℕ)
      → (write_batches e c rows i shards).1 ≡ true
      → At i shards k (write_batches e c rows i shards)
  unfolding At
  write_batches-At [] i k h = (
    (λ n. ap (λ (w : List b.Shard × Bool). get_elem? w.0 k) (write_batches-none i)),
    λ s n. absurd (ground (arith, n)),
  )
  write_batches-At (s ∷ shards) i k h =
      (let same = write_batches-head s shards i in
        let (fine, (t, parts, row)) =
          with_head-row s (rows_for e c i rows) (write_batches e c rows (suc i) shards)
            (ap (λ (w : List b.Shard × Bool). w.1) (sym same) ∙ h) in
        let whole : (write_batches e c rows i (s ∷ shards)).0
            ≡ t ∷ (write_batches e c rows (suc i) shards).0 =
          ap (λ (w : List b.Shard × Bool). w.0) same ∙ parts in
        go k t whole row (λ j. write_batches-At shards (suc i) j fine))
    where
      go :
          (k : ℕ) (t : b.Shard)
          → (write_batches e c rows i (s ∷ shards)).0
            ≡ t ∷ (write_batches e c rows (suc i) shards).0
          → ((id : Text) → b.row t id ≡ replaced id (rows_for e c i rows) (b.row s id))
          → ((j : ℕ) → At (suc i) shards j (write_batches e c rows (suc i) shards))
          → At i (s ∷ shards) k (write_batches e c rows i (s ∷ shards))
      go zero t whole row rest = (
        (λ n. absurd (ground (arith, n))),
        (λ other n. (
          t,
          ap (λ l. get_elem? l 0) whole,
          λ id.
              row id
              ∙ ap (λ x. replaced id (rows_for e c i rows) (b.row x id)) (some-injective _ _ n)
              ∙ ap (λ j. replaced id (rows_for e c j rows) (b.row other id)) (omega arith),
        )),
      )
      go (suc k) t whole row rest =
          (let (gone, kept) = rest k in
            (
              (λ n. ap (λ l. get_elem? l (suc k)) whole ∙ gone n),
              (λ other n.
                  (let (u, at, rows_at) = kept other n in
                    (
                      u,
                      ap (λ l. get_elem? l (suc k)) whole ∙ at,
                      λ id.
                          rows_at id
                          ∙ ap (λ j. replaced id (rows_for e c j rows) (b.row other id))
                              (omega arith),
                    ))),
            ))
