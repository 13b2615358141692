-- ===== src/Btree/Nodes.antt =====
-- lsengine/internal/jsondb/btree.go: the nodes, and `splitChild`. A panic of the Go runtime is an
-- outcome that carries the state it leaves behind, since nodes are changed in place before it.
use lsengine_js.Base.{
  ℕ, zero, suc, ◌+◌, ◌*◌, max, Bool, false, ◌&&◌, ◌||◌, Option, none, some, List, [], ◌∷◌, ◌++◌,
  leb, ◌==◌, if◌then◌else◌, length, get_elem?, take, drop,
}
use lsengine_js.Btree.Keys.{Key}

-- `append(xs[:pos], append([]T{x}, xs[pos:]...)...)`
unfoldable pub insert_at {ℓ} : {A : Type ℓ} → List A → ℕ → A → List A
insert_at xs at x = take at xs ++ (x ∷ drop at xs)

pub data Outcome {ℓ} (A : Type ℓ) : Type ℓ where
  returns : A → Outcome A
  panics : A → Outcome A
  exhausted : Outcome A

-- The third field is cap(keys), which the code compares with len(keys). The field `next` is never used.
mutual
  pub data Node {ℓ} (V : Type ℓ) : Type ℓ where
    node : Bool → List Key → ℕ → List (List V) → Nodes V → Node V

  pub data Nodes {ℓ} (V : Type ℓ) : Type ℓ where
    nil : Nodes V
    cons : Node V → Nodes V → Nodes V

module _ {ℓ} {V : Type ℓ} where
  abbrev pub is_leaf : Node V → Bool
  is_leaf (node leaf keys room values children) = leaf

  abbrev pub keys_of : Node V → List Key
  keys_of (node leaf keys room values children) = keys

  abbrev pub values_of : Node V → List (List V)
  values_of (node leaf keys room values children) = values

  abbrev pub children_of : Node V → Nodes V
  children_of (node leaf keys room values children) = children

  -- `len(node.keys) == room(node.keys)`
  abbrev pub is_full : Node V → Bool
  is_full (node leaf keys room values children) = length keys == room

  abbrev pub count : Nodes V → ℕ
  count nil = 0
  count (cons n ns) = suc (count ns)

  abbrev pub child_at : Nodes V → ℕ → Option (Node V)
  child_at nil i = none
  child_at (cons n ns) zero = some n
  child_at (cons n ns) (suc i) = child_at ns i

  -- The parent sees a change of `children[i]`, which it holds by reference.
  abbrev pub set_child : Nodes V → ℕ → Node V → Nodes V
  set_child nil i m = nil
  set_child (cons n ns) zero m = cons m ns
  set_child (cons n ns) (suc i) m = cons n (set_child ns i m)

  abbrev pub take_children : ℕ → Nodes V → Nodes V
  take_children zero ns = nil
  take_children (suc i) nil = nil
  take_children (suc i) (cons n ns) = cons n (take_children i ns)

  abbrev pub drop_children : ℕ → Nodes V → Nodes V
  drop_children zero ns = ns
  drop_children (suc i) nil = nil
  drop_children (suc i) (cons n ns) = drop_children i ns

  abbrev pub add_child_at : Nodes V → ℕ → Node V → Nodes V
  add_child_at ns zero m = cons m ns
  add_child_at nil (suc i) m = cons m nil
  add_child_at (cons n ns) (suc i) m = cons n (add_child_at ns i m)

  abbrev pub set_children : Node V → Nodes V → Node V
  set_children (node leaf keys room values _) children = node leaf keys room values children

  -- What `pool.Get` makes: nothing is ever put back into the pool.
  unfoldable pub fresh : ℕ → Node V
  fresh degree = node false [] (degree * 2) [] nil

  -- The last three statements of `splitChild`, with the child cut already. `child.keys[mid]` reads
  -- the slice that was cut to `mid` entries.
  unfoldable pub promote : Node V → ℕ → ℕ → Node V → Node V → Outcome (Node V)
  unfolding insert_at
  promote (node leaf keys room values children) index mid child new_node =
      let parent = node leaf keys room values (set_child children index child) in
      elim (get_elem? (keys_of child) mid) [
        | none ↦ panics parent
        | some k ↦ elim (get_elem? (values_of child) mid) [
          | none ↦ panics parent
          | some v ↦ returns (
              node leaf (insert_at keys index k) (max room (length keys + 1))
                (insert_at values index v)
                (add_child_at (set_child children index child) (index + 1) new_node))
        ]
      ]

  -- The cuts at `mid = degree - 1`. A slice bound beyond the length panics before any change; at
  -- degree 0 the bound `[:mid]` is negative.
  unfoldable pub cut : ℕ → Node V → ℕ → Node V → Outcome (Node V)
  unfolding promote
  cut zero parent index child = panics parent
  cut (suc mid) parent index (node leaf keys room values children) =
      let new_node =
        node leaf (drop (suc mid) keys) (suc mid * 2) (drop (suc mid) values)
          (if leaf then nil else drop_children (suc mid) children) in
      let child =
        node leaf (take mid keys) room (take mid values)
          (if leaf then children else take_children (suc mid) children) in
      if leb (suc mid) (length keys)
        && leb (suc mid) (length values)
        && (leaf || leb (suc mid) (count children))
      then promote parent index mid child new_node
      else panics parent

  unfoldable pub split_child : ℕ → Node V → ℕ → Outcome (Node V)
  unfolding cut
  split_child degree parent index = elim (child_at (children_of parent) index) [
    | none ↦ panics parent
    | some child ↦ cut degree parent index child
  ]
