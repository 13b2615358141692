-- ===== src/Btree/Index.antt =====
-- lsengine/internal/jsondb/btree.go: `Insert` and `Search`. The recursion takes fuel, one unit
-- for a level of the tree.
use lsengine_js.Base.{
  ℕ, zero, suc, ◌+◌, ◌-◌, ◌*◌, max, true, Option, none, some, List, [], ◌∷◌, leb, if◌then◌else◌,
  length, get_elem?,
}
use lsengine_js.Btree.Keys.{Key, compare, is_greater, key_at_least, key_equal, at_most_key}
use lsengine_js.Btree.Sort.{sort_search}
use lsengine_js.Btree.Nodes.{
  Node, node, nil, cons, Outcome, returns, panics, exhausted, insert_at, is_leaf, keys_of,
  children_of, is_full, count, child_at, set_child, add_child_at, set_children, fresh, split_child,
}

-- `pos` after a split of the child that it names
abbrev pub after_split : List Key → ℕ → Key → ℕ
after_split keys at key = elim (get_elem? keys at) [
  | none ↦ at
  | some k ↦ if is_greater (compare key k) then at + 1 else at
]

module _ {ℓ} {V : Type ℓ} where
  -- the leaf branch of `insertNonFull`
  unfoldable pub insert_leaf : Node V → Key → V → Node V
  unfolding insert_at sort_search compare
  insert_leaf (node leaf keys room values children) key value =
      let at = sort_search (length keys) (key_at_least keys key) in
      node leaf (insert_at keys at key) (max room (length keys + 1))
        (insert_at values at (value ∷ [])) children

  -- The inner branch of `insertNonFull` hands the rest of the way to `descend`; a panic in a child
  -- leaves what the child became in its parent.
  abbrev pub put_back : Node V → ℕ → Outcome (Node V) → Outcome (Node V)
  put_back n at (returns m) = returns (set_children n (set_child (children_of n) at m))
  put_back n at (panics m) = panics (set_children n (set_child (children_of n) at m))
  put_back n at exhausted = exhausted

  abbrev pub enter : ℕ → Node V → ℕ → (Node V → Outcome (Node V)) → Outcome (Node V)
  enter degree n at descend = elim (child_at (children_of n) at) [
    | some child ↦ put_back n at (descend child)
    | none ↦
        put_back
          (set_children n (add_child_at (children_of n) (count (children_of n)) (fresh degree)))
          (count (children_of n)) (descend (fresh degree))
  ]

  unfoldable pub insert_inner : ℕ → Node V → Key → (Node V → Outcome (Node V)) → Outcome (Node V)
  unfolding sort_search compare split_child fresh
  insert_inner degree n key descend =
      let found = sort_search (length (keys_of n)) (key_at_least (keys_of n) key) in
      let at = if leb (count (children_of n)) found then count (children_of n) - 1 else found in
      elim (child_at (children_of n) at) [
        | none ↦ enter degree n at descend
        | some child ↦
            if is_full child
            then elim (split_child degree n at) [
              | returns m ↦ enter degree m (after_split (keys_of m) at key) descend
              | panics m ↦ panics m
              | exhausted ↦ exhausted
            ]
            else enter degree n at descend
      ]

  unfoldable pub insert_non_full : ℕ → ℕ → Node V → Key → V → Outcome (Node V)
  unfolding insert_leaf insert_inner
  insert_non_full zero degree n key value = exhausted
  insert_non_full (suc fuel) degree n key value =
      let inner = insert_inner degree n key (λ c. insert_non_full fuel degree c key value) in
      if is_leaf n then returns (insert_leaf n key value) else inner

pub record BTreeIndex {ℓ} (V : Type ℓ) : Type ℓ where
  pub root : Node V
  pub degree : ℕ
  pub size : ℕ

module _ {ℓ} {V : Type ℓ} where
  unfoldable pub new_btree_index : ℕ → BTreeIndex V
  new_btree_index degree = record {
    root = node true [] (degree * 2) [] nil;
    degree = degree;
    size = 0;
  }

  abbrev pub first_child : Node V → Node V → Node V
  first_child n m = elim (child_at (children_of m) 0) [ none ↦ n | some c ↦ c ]

  abbrev pub finish : BTreeIndex V → Outcome (Node V) → Outcome (BTreeIndex V)
  finish t (returns m) = returns (record t { root = m; size = t.size + 1 })
  finish t (panics m) = panics (record t { root = m })
  finish t exhausted = exhausted

  -- `Insert`. A panic in `splitChild` comes before `bt.root = newRoot`: the root stays the old node,
  -- as the split left it.
  unfoldable pub btree_insert : ℕ → BTreeIndex V → Key → V → Outcome (BTreeIndex V)
  unfolding split_child insert_non_full fresh
  btree_insert fuel t key value =
      if is_full t.root
      then elim (split_child t.degree (set_children (fresh t.degree) (cons t.root nil)) 0) [
        | returns m ↦ finish t (insert_non_full fuel t.degree m key value)
        | panics m ↦ panics (record t { root = first_child t.root m })
        | exhausted ↦ exhausted
      ]
      else finish t (insert_non_full fuel t.degree t.root key value)

  abbrev pub found_values : Option (List V) → Outcome (Option (List V))
  found_values none = panics none
  found_values (some v) = returns (some v)

  abbrev pub descend_to :
      Option (Node V) → (Node V → Outcome (Option (List V))) → Outcome (Option (List V))
  descend_to none f = panics none
  descend_to (some child) f = f child

  -- The loop of `Search`: the values, or `none` for `nil`.
  unfoldable pub search_node : ℕ → Node V → Key → Outcome (Option (List V))
  unfolding sort_search compare
  search_node zero n key = exhausted
  search_node (suc fuel) (node leaf keys room values children) key =
      let at = sort_search (length keys) (at_most_key keys key) in
      let hit = key_equal keys key at in
      let deeper = descend_to (child_at children at) (λ child. search_node fuel child key) in
      if hit then found_values (get_elem? values at) else if leaf then returns none else deeper

  unfoldable pub btree_search : ℕ → BTreeIndex V → Key → Outcome (Option (List V))
  unfolding search_node
  btree_search fuel t key = search_node fuel t.root key
