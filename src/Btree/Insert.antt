-- ===== src/Btree/Insert.antt =====
-- lsengine/internal/jsondb/btree.go: `splitChild`, `Insert` and `Search` on the trees that the index
-- can reach.
use lsengine_js.Base.{
  ℕ, zero, suc, ◌+◌, ◌*◌, ◌≤◌, ◌<◌, ◌≡◌, refl, ap, sym, ◌∙◌, ◌⊎◌, Bool, true, false, Option, none,
  some, List, [], ◌∷◌, arith, inl, inr, if◌then◌else◌, length, get_elem?, take, All, Bool-cases,
  Option-cases, length-take, All-take,
}
use mathlib.Core.Path.{fun_ext}
use lsengine_js.Btree.Keys.{Key, compare, at_least, is_equal, key_at_least, key_equal}
use lsengine_js.Btree.Sort.{first_true, sort_search-first_true}
use lsengine_js.Btree.Nodes.{
  Node, node, Nodes, nil, cons, Outcome, returns, panics, keys_of, is_full, is_leaf, fresh, promote,
  cut, split_child, child_at, children_of, set_children,
}
use lsengine_js.Btree.Index.{
  insert_leaf, insert_non_full, BTreeIndex, new_btree_index, btree_insert, search_node,
  btree_search, found_values,
}
use lsengine_js.Btree.Order.{Kind, HasKind}
use lsengine_js.Btree.Leaf.{
  IsSorted, insert_keys, insert_values, find, key_at_least-IsMonotone, at_most_key-key_at_least,
  insert_at-insert_keys, insert_at-insert_values, insert_keys-All, insert_keys-IsSorted,
  find-insert, length-insert_keys, length-insert_values,
}

get_elem?-take {ℓ} : {A : Type ℓ} (n : ℕ) (xs : List A) → get_elem? (take n xs) n ≡ none
get_elem?-take zero xs = refl
get_elem?-take (suc n) [] = refl
get_elem?-take (suc n) (x ∷ xs) = get_elem?-take n xs

returns-injective {ℓ} : {A : Type ℓ} (a b : A) → returns a ≡ returns b → a ≡ b
returns-injective a b h = cc

-- The outcome is a panic.
abbrev pub IsPanic {ℓ} : {A : Type ℓ} → Outcome A → Type 0
IsPanic (panics a) = Unit
IsPanic _ = ⊥

take-IsSorted : (n : ℕ) (keys : List Key) → IsSorted keys → IsSorted (take n keys)
take-IsSorted zero keys s = tt
take-IsSorted (suc n) [] s = tt
take-IsSorted (suc n) (k ∷ ks) s =
    (All-take (λ j. at_least (compare j k) ≡ true) n ks s.0, take-IsSorted n ks s.1)

module _ {ℓ} {V : Type ℓ} where
  cut-IsPanic :
      (degree : ℕ) (parent : Node V) (index : ℕ) (child : Node V)
      → IsPanic (cut degree parent index child)
  unfolding cut promote
  cut-IsPanic zero parent index child = tt
  cut-IsPanic (suc mid) (node l ks r vs cs) index (node leaf keys room values children) =
      ground (arith, get_elem?-take mid keys)

  -- `splitChild` never returns: it reads `child.keys[mid]` after it cut `child.keys` to `mid` entries.
  pub split_child-IsPanic :
      (degree : ℕ) (parent : Node V) (index : ℕ) → IsPanic (split_child degree parent index)
  unfolding split_child
  split_child-IsPanic degree parent index =
      elim (Option-cases (child_at (children_of parent) index)) [
        | inl e ↦ rw (e, split_child) tt
        | inr (child, e) ↦ rw (e, split_child) (cut-IsPanic degree parent index child)
      ]

  -- A leaf of sorted keys of one kind, with a value list for each, in a slice of 2 * degree places.
  abbrev pub IsValidLeaf : Kind → ℕ → Node V → Type 0
  IsValidLeaf κ degree (node leaf keys room values children) =
      (leaf ≡ true)
      × (room ≡ degree * 2)
      × (length keys ≤ room)
      × (length values ≡ length keys)
      × All (HasKind κ) keys
      × IsSorted keys

  -- What the leaf maps a key to.
  abbrev pub find_in : Node V → Key → Option (List V)
  find_in (node leaf keys room values children) key = find keys values key

  pub record IsValid (κ : Kind) (t : BTreeIndex V) : Type ℓ where
    pub leaf : IsValidLeaf κ t.degree t.root

  insert_leaf-insert_keys :
      (κ : Kind) (key : Key) (v : V) (leaf : Bool) (keys : List Key) (room : ℕ)
      (values : List (List V)) (children : Nodes V)
      → HasKind κ key
      → All (HasKind κ) keys
      → IsSorted keys
      → length values ≡ length keys
      → length keys < room
      → insert_leaf (node leaf keys room values children) key v
        ≡ node leaf (insert_keys keys key) room (insert_values keys values key (v ∷ [])) children
  unfolding insert_leaf
  insert_leaf-insert_keys κ key v leaf keys room values children hk a s len fits =
      rw
        (
          sort_search-first_true (length keys) (key_at_least keys key)
              (key_at_least-IsMonotone κ key hk keys a s),
          insert_at-insert_keys κ key hk keys,
          insert_at-insert_values κ key hk keys values (v ∷ []) len,
        )
        (ap
          (λ r.
            node leaf (insert_keys keys key) r (insert_values keys values key (v ∷ [])) children)
          (omega arith))

  insert_leaf-IsValidLeaf :
      (κ : Kind) (degree : ℕ) (n : Node V) (key : Key) (v : V)
      → HasKind κ key
      → IsValidLeaf κ degree n
      → is_full n ≡ false
      → IsValidLeaf κ degree (insert_leaf n key v)
  insert_leaf-IsValidLeaf κ degree (node leaf keys room values children) key v hk
        (l, e, fits, len, a, s) full =
      rw (insert_leaf-insert_keys κ key v leaf keys room values children hk a s len (ground arith))
        (
          l,
          e,
          rw length-insert_keys (ground arith),
          rw (length-insert_keys, length-insert_values, len),
          insert_keys-All κ key hk keys a,
          insert_keys-IsSorted κ key hk keys a s,
        )

  find_in-insert_leaf :
      (κ : Kind) (degree : ℕ) (n : Node V) (key : Key) (v : V) (q : Key)
      → HasKind κ key
      → HasKind κ q
      → IsValidLeaf κ degree n
      → is_full n ≡ false
      → find_in (insert_leaf n key v) q
        ≡ (if is_equal (compare q key) then some (v ∷ []) else find_in n q)
  find_in-insert_leaf κ degree (node leaf keys room values children) key v q hk hq
        (l, e, fits, len, a, s) full =
      rw (insert_leaf-insert_keys κ key v leaf keys room values children hk a s len (ground arith))
        (find-insert κ key hk keys values (v ∷ []) q hq a s len)

  -- the leaf after a split of it has panicked
  abbrev pub halved : ℕ → Node V → Node V
  halved zero n = n
  halved (suc mid) (node leaf keys room values children) =
      node leaf (take mid keys) room (take mid values) children

  split_child-halved :
      (degree : ℕ) (n : Node V) (κ : Kind)
      → 0 < degree
      → IsValidLeaf κ degree n
      → is_full n ≡ true
      → split_child degree (set_children (fresh degree) (cons n nil)) 0
        ≡ panics (set_children (fresh degree) (cons (halved degree n) nil))
  unfolding split_child fresh cut promote
  split_child-halved zero n κ p w full = elim p [ ]
  split_child-halved (suc mid) (node leaf keys room values children) κ p (l, e, fits, len, a, s)
        full =
      ground (arith, get_elem?-take mid keys)

  IsValidLeaf-is_leaf :
      (κ : Kind) (degree : ℕ) (n : Node V) → IsValidLeaf κ degree n → is_leaf n ≡ true
  IsValidLeaf-is_leaf κ degree (node leaf keys room values children) w = w.0

  is_full-split :
      (κ : Kind) (degree : ℕ) (n : Node V)
      → IsValidLeaf κ degree n
      → is_full n ≡ true
      → length (keys_of n) ≡ degree * 2
  is_full-split κ degree (node leaf keys room values children) w full = ground arith

  halved-IsValidLeaf :
      (κ : Kind) (degree : ℕ) (n : Node V)
      → IsValidLeaf κ degree n
      → IsValidLeaf κ degree (halved degree n)
  halved-IsValidLeaf κ zero n w = w
  halved-IsValidLeaf κ (suc mid) (node leaf keys room values children) (l, e, fits, len, a, s) = (
    l,
    e,
    omega (arith, length-take mid keys),
    omega (arith, length-take mid keys, length-take mid values),
    All-take (HasKind κ) mid keys a,
    take-IsSorted mid keys s,
  )

  -- `Insert` below capacity
  insert-below :
      (κ : Kind) (fuel : ℕ) (t : BTreeIndex V) (key : Key) (v : V)
      → IsValid κ t
      → is_full t.root ≡ false
      → btree_insert (suc fuel) t key v
        ≡ returns (record t { root = insert_leaf t.root key v; size = t.size + 1 })
  unfolding btree_insert insert_non_full
  insert-below κ fuel t key v w full = rw (full, IsValidLeaf-is_leaf κ t.degree t.root w.leaf)

  insert-full :
      (κ : Kind) (fuel : ℕ) (t : BTreeIndex V) (key : Key) (v : V)
      → 0 < t.degree
      → IsValid κ t
      → is_full t.root ≡ true
      → btree_insert fuel t key v ≡ panics (record t { root = halved t.degree t.root })
  unfolding btree_insert
  insert-full κ fuel t key v p w full =
      rw (full, split_child-halved t.degree t.root κ p w.leaf full)

  find_at_first_true :
      (keys : List Key) (values : List (List V)) (q : Key) (deeper : Outcome (Option (List V)))
      → length values ≡ length keys
      → (if key_equal keys q (first_true (length keys) (key_at_least keys q))
          then found_values (get_elem? values (first_true (length keys) (key_at_least keys q)))
          else returns none)
        ≡ returns (find keys values q)
  unfolding find
  find_at_first_true [] values q deeper h = refl
  find_at_first_true (k ∷ ks) [] q deeper h = absurd (omega arith)
  find_at_first_true (k ∷ ks) (v ∷ vs) q deeper h =
      ground (arith, find_at_first_true ks vs q deeper)

  pub search_node-find_in :
      (κ : Kind) (fuel degree : ℕ) (n : Node V) (q : Key)
      → HasKind κ q
      → IsValidLeaf κ degree n
      → search_node (suc fuel) n q ≡ returns (find_in n q)
  unfolding search_node
  search_node-find_in κ fuel degree (node leaf keys room values children) q hq
        (l, e, fits, len, a, s) =
      rw
        (
          l,
          fun_ext (λ i. at_most_key-key_at_least κ q hq keys i a),
          sort_search-first_true (length keys) (key_at_least keys q)
              (key_at_least-IsMonotone κ q hq keys a s),
        )
        (find_at_first_true keys values q (returns none) len)

  -- For a degree above zero, `Insert` keeps a valid index valid: below capacity it returns and counts
  -- one more entry, and at capacity it panics and leaves the count as it was.
  pub btree_insert-IsValid :
      (κ : Kind) (fuel : ℕ) (t : BTreeIndex V) (key : Key) (v : V)
      → 0 < t.degree
      → HasKind κ key
      → IsValid κ t
      → (t' : BTreeIndex V) × IsValid κ t'
        × (t'.degree ≡ t.degree)
        × (((is_full t.root ≡ false)
              × (btree_insert (suc fuel) t key v ≡ returns t')
              × (t'.size ≡ t.size + 1))
            ⊎ ((is_full t.root ≡ true)
                × (btree_insert (suc fuel) t key v ≡ panics t')
                × (t'.size ≡ t.size)))
  btree_insert-IsValid κ fuel t key v p hk w = elim (Bool-cases (is_full t.root)) [
    | inr full ↦ (
      record t { root = insert_leaf t.root key v; size = t.size + 1 },
      record { leaf = insert_leaf-IsValidLeaf κ t.degree t.root key v hk w.leaf full },
      refl,
      inl (full, insert-below κ fuel t key v w full, refl),
    )
    | inl full ↦ (
      record t { root = halved t.degree t.root },
      record { leaf = halved-IsValidLeaf κ t.degree t.root w.leaf },
      refl,
      inr (full, insert-full κ (suc fuel) t key v p w full, refl),
    )
  ]

  -- After an insertion that returned, for keys of one kind in a valid index of a degree above zero, a
  -- search finds the new value alone at an equal key and at any other key what it found before.
  pub btree_search-insert :
      (κ : Kind) (fuel m : ℕ) (t t' : BTreeIndex V) (key q : Key) (v : V)
      → 0 < t.degree
      → HasKind κ key
      → HasKind κ q
      → IsValid κ t
      → btree_insert (suc fuel) t key v ≡ returns t'
      → btree_search (suc m) t' q
        ≡ (if is_equal (compare q key) then returns (some (v ∷ [])) else btree_search (suc m) t q)
  unfolding btree_search
  btree_search-insert κ fuel m t t' key q v p hk hq w done = elim (Bool-cases (is_full t.root)) [
    | inl full ↦ absurd (ground (arith, insert-full κ (suc fuel) t key v p w full))
    | inr full ↦
        rw
          (
            ← returns-injective _ t' (sym (insert-below κ fuel t key v w full) ∙ done),
            search_node-find_in κ m t.degree (insert_leaf t.root key v) q hq
                (insert_leaf-IsValidLeaf κ t.degree t.root key v hk w.leaf full),
            search_node-find_in κ m t.degree t.root q hq w.leaf,
            find_in-insert_leaf κ t.degree t.root key v q hk hq w.leaf full,
          )
          (ground arith)
  ]

  pub new_btree_index-IsValid : (κ : Kind) (degree : ℕ) → IsValid κ (new_btree_index {V = V} degree)
  unfolding new_btree_index
  new_btree_index-IsValid κ degree = record { leaf = (refl, refl, omega arith, refl, tt, tt) }

  is_full-below :
      (κ : Kind) (degree : ℕ) (n : Node V)
      → IsValidLeaf κ degree n
      → length (keys_of n) < degree * 2
      → is_full n ≡ false
  is_full-below κ degree (node leaf keys room values children) w p = ground arith

  length-insert_leaf :
      (κ : Kind) (degree : ℕ) (n : Node V) (key : Key) (v : V)
      → HasKind κ key
      → IsValidLeaf κ degree n
      → is_full n ≡ false
      → length (keys_of (insert_leaf n key v)) ≡ suc (length (keys_of n))
  length-insert_leaf κ degree (node leaf keys room values children) key v hk (l, e, fits, len, a, s)
        full =
      rw (insert_leaf-insert_keys κ key v leaf keys room values children hk a s len (ground arith))
        (length-insert_keys keys key)

  -- Below 2 * degree keys an insertion returns, with one key more.
  pub insert-below-length :
      (κ : Kind) (fuel : ℕ) (t : BTreeIndex V) (key : Key) (v : V)
      → 0 < t.degree
      → HasKind κ key
      → IsValid κ t
      → length (keys_of t.root) < t.degree * 2
      → (u : BTreeIndex V) × IsValid κ u
        × (u.degree ≡ t.degree)
        × (btree_insert (suc fuel) t key v ≡ returns u)
        × (length (keys_of u.root) ≡ suc (length (keys_of t.root)))
        × (u.size ≡ t.size + 1)
  insert-below-length κ fuel t key v p hk w room =
      let full = is_full-below κ t.degree t.root w.leaf room in
      (
        record t { root = insert_leaf t.root key v; size = t.size + 1 },
        record { leaf = insert_leaf-IsValidLeaf κ t.degree t.root key v hk w.leaf full },
        refl,
        insert-below κ fuel t key v w full,
        length-insert_leaf κ t.degree t.root key v hk w.leaf full,
        refl,
      )

  is_full_at :
      (κ : Kind) (degree : ℕ) (n : Node V)
      → IsValidLeaf κ degree n
      → length (keys_of n) ≡ degree * 2
      → is_full n ≡ true
  is_full_at κ degree (node leaf keys room values children) w e = ground arith

  length-halved :
      (κ : Kind) (degree : ℕ) (n : Node V)
      → 0 < degree
      → IsValidLeaf κ degree n
      → length (keys_of n) ≡ degree * 2
      → length (keys_of (halved degree n)) + 1 ≡ degree
  length-halved κ zero n p w e = elim p [ ]
  length-halved κ (suc mid) (node leaf keys room values children) p w e =
      omega (arith, length-take mid keys)

  -- At 2 * degree keys it panics, and all but the first degree - 1 keys are lost.
  pub insert-at_capacity :
      (κ : Kind) (fuel : ℕ) (t : BTreeIndex V) (key : Key) (v : V)
      → 0 < t.degree
      → IsValid κ t
      → length (keys_of t.root) ≡ t.degree * 2
      → (u : BTreeIndex V) × (btree_insert fuel t key v ≡ panics u)
        × (u.size ≡ t.size)
        × (length (keys_of u.root) + 1 ≡ t.degree)
  insert-at_capacity κ fuel t key v p w e = (
    record t { root = halved t.degree t.root },
    insert-full κ fuel t key v p w (is_full_at κ t.degree t.root w.leaf e),
    refl,
    length-halved κ t.degree t.root p w.leaf e,
  )
