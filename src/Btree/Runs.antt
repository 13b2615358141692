-- ===== src/Btree/Runs.antt =====
-- lsengine/internal/jsondb/btree.go: sequences of insertions, and keys of mixed dynamic types.
use lsengine_js.Base.{
  ℕ, zero, suc, ◌+◌, ◌*◌, ◌≤◌, ◌<◌, ◌≡◌, refl, true, some, List, [], ◌∷◌, arith, length, All, Text,
}
use lsengine_js.Btree.Keys.{Key, str, int, compare, at_most_key}
use lsengine_js.Btree.Sort.{sort_search-first_true}
use lsengine_js.Btree.Nodes.{node, nil, Outcome, returns, panics, exhausted, keys_of}
use lsengine_js.Btree.Index.{BTreeIndex, new_btree_index, btree_insert, search_node, btree_search}
use lsengine_js.Btree.Order.{Kind, ints, HasKind}
use lsengine_js.Btree.Insert.{
  IsValid, new_btree_index-IsValid, insert-below-length, insert-at_capacity,
}

int_keys_match :
    (s : Text) (keys : List Key) (j : ℕ)
    → All (HasKind ints) keys
    → j < length keys
    → at_most_key keys (str s) j ≡ true
unfolding compare
int_keys_match s [] j a h = absurd (omega arith)
int_keys_match s (int k ∷ keys) zero a h = refl
int_keys_match s (int k ∷ keys) (suc j) a h = int_keys_match s keys j a.1 (omega arith)
int_keys_match s (_ ∷ keys) j a h = absurd (a.0)

module _ {ℓ} {V : Type ℓ} where
  -- Insertions one after the other, up to the first panic.
  unfoldable pub insert_all : ℕ → List (Key × V) → BTreeIndex V → Outcome (BTreeIndex V)
  insert_all fuel [] t = returns t
  insert_all fuel ((key, v) ∷ items) t = elim (btree_insert fuel t key v) [
    | returns t' ↦ insert_all fuel items t'
    | panics t' ↦ panics t'
    | exhausted ↦ exhausted
  ]

  insert_all_from :
      (κ : Kind) (fuel : ℕ) (items : List (Key × V)) (t : BTreeIndex V)
      → 0 < t.degree
      → IsValid κ t
      → All (λ i. HasKind κ i.0) items
      → length (keys_of t.root) + length items ≤ t.degree * 2
      → (t' : BTreeIndex V) × (insert_all (suc fuel) items t ≡ returns t')
        × IsValid κ t'
        × (t'.size ≡ t.size + length items)
        × (length (keys_of t'.root) ≡ length (keys_of t.root) + length items)
        × (t'.degree ≡ t.degree)
  unfolding insert_all
  insert_all_from κ fuel [] t p w a fits = (t, refl, w, omega arith, omega arith, refl)
  insert_all_from κ fuel ((key, v) ∷ items) t p w a fits =
      let (u, wu, du, done, len, size) = insert-below-length κ fuel t key v p a.0 w (omega arith) in
      let (t', run, wt, st, lt, dt) =
        insert_all_from κ fuel items u (omega arith) wu a.1 (omega arith) in
      (t', rw (done, insert_all) run, wt, omega arith, omega arith, ground arith)

  -- From an empty index of a degree above zero, 2 * degree insertions of keys of one kind return, and
  -- the next one panics: it leaves degree - 1 keys under a size of 2 * degree.
  pub insert_all-capacity :
      (κ : Kind) (fuel degree : ℕ) (items : List (Key × V)) (key : Key) (v : V)
      → 0 < degree
      → All (λ i. HasKind κ i.0) items
      → length items ≡ degree * 2
      → (t u : BTreeIndex V) × (insert_all (suc fuel) items (new_btree_index degree) ≡ returns t)
        × (t.size ≡ degree * 2)
        × (btree_insert (suc fuel) t key v ≡ panics u)
        × (u.size ≡ degree * 2)
        × (length (keys_of u.root) + 1 ≡ degree)
  unfolding new_btree_index
  insert_all-capacity κ fuel degree items key v p a e =
      let (t, run, w, st, lt, dt) =
        insert_all_from κ fuel items (new_btree_index degree) p (new_btree_index-IsValid κ degree) a
          (omega arith) in
      let (u, boom, su, lu) =
        insert-at_capacity κ (suc fuel) t key v (omega arith) w (omega arith) in
      (t, u, run, omega arith, boom, omega arith, omega arith)

  -- A key of another dynamic type compares as equal to every key: in an index of int64 keys a search
  -- for any string returns the values of the smallest key.
  pub btree_search-confused :
      (s : Text) (m : ℕ) (t : BTreeIndex V) (k : Key) (ks : List Key) (room : ℕ) (vs : List V)
      (rest : List (List V))
      → t.root ≡ node true (k ∷ ks) room (vs ∷ rest) nil
      → All (HasKind ints) (k ∷ ks)
      → btree_search (suc m) t (str s) ≡ returns (some vs)
  unfolding btree_search search_node compare
  btree_search-confused s m t (int k) ks room vs rest e a =
      rw
        (
          e,
          sort_search-first_true (length (int k ∷ ks)) (at_most_key (int k ∷ ks) (str s))
              (λ i j p q h. int_keys_match s (int k ∷ ks) j a q),
        )
        refl
  btree_search-confused s m t _ ks room vs rest e a = absurd a.0
