-- ===== src/Btree/Tests.antt =====
-- lsengine/internal/jsondb/btree.go: runs of the index on small inputs, and the theorems applied.
use lsengine_js.Base.{
  ℕ, ◌+◌, ◌*◌, ◌^◌, ◌≡◌, refl, ◌⊎◌, true, false, none, some, [], ◌∷◌, arith, length, bytes, pos,
  negsuc, if◌then◌else◌,
}
use lsengine_js.Btree.Keys.{Comparison, str, int, float, compare, is_equal}
use lsengine_js.Btree.Nodes.{node, nil, cons, returns, panics, is_full, keys_of, split_child}
use lsengine_js.Btree.Index.{BTreeIndex, new_btree_index, btree_insert, btree_search}
use lsengine_js.Btree.Order.{ints}
use lsengine_js.Btree.Insert.{
  IsPanic, IsValid, split_child-IsPanic, btree_insert-IsValid, btree_search-insert,
}
use lsengine_js.Btree.Runs.{insert_all, insert_all-capacity, btree_search-confused}

program : Unit {0}
unfolding new_btree_index btree_insert btree_search insert_all compare
program = tt

abbrev two_keys : BTreeIndex ℕ
two_keys = record {
  root = node true (int (negsuc 4) ∷ int (pos 3) ∷ []) 2 ((50 ∷ []) ∷ (30 ∷ []) ∷ []) nil;
  degree = 1;
  size = 2;
}

abbrev one_key : BTreeIndex ℕ
one_key = record {
  root = node true (int (pos 3) ∷ []) 2 ((30 ∷ []) ∷ []) nil;
  degree = 1;
  size = 1;
}

two_keys_run :
    insert_all 1 ((int (pos 3), 30) ∷ (int (negsuc 4), 50) ∷ []) (new_btree_index 1)
    ≡ returns two_keys
unfolding program
two_keys_run = refl

-- The third insertion into an index of degree 1 panics and leaves no key.
third_insertion :
    btree_insert 1 two_keys (int (pos 7)) 70
    ≡ panics (record { root = node true [] 2 [] nil; degree = 1; size = 2 })
unfolding program
third_insertion = refl

search_runs :
    (btree_search 1 two_keys (int (pos 3)) ≡ returns (some (30 ∷ [])))
    × (btree_search 1 two_keys (int (pos 4)) ≡ returns none)
unfolding program
search_runs = (refl, refl)

-- 1.5 is above -2.0, and a NaN is neither above nor below.
float_runs :
    (compare (float (0xc0 * 2 ^ 56)) (float (0x3ff8 * 2 ^ 48)) ≡ Comparison.less)
    × (compare (float (0x7ff8 * 2 ^ 48)) (float 0) ≡ Comparison.equal)
unfolding program
float_runs = (refl, refl)

one_key-IsValid : IsValid ints one_key
one_key-IsValid = record { leaf = (refl, refl, omega arith, refl, (tt, tt), (tt, tt)) }

split_child-IsPanic_example :
    IsPanic (split_child 1 (node false [] 2 [] (cons two_keys.root nil)) 0)
split_child-IsPanic_example = split_child-IsPanic 1 (node false [] 2 [] (cons two_keys.root nil)) 0

btree_insert-IsValid_example :
    (t' : BTreeIndex ℕ) × IsValid ints t'
    × (t'.degree ≡ 1)
    × (((is_full one_key.root ≡ false)
          × (btree_insert 1 one_key (int (pos 9)) 90 ≡ returns t')
          × (t'.size ≡ 1 + 1))
        ⊎ ((is_full one_key.root ≡ true)
            × (btree_insert 1 one_key (int (pos 9)) 90 ≡ panics t')
            × (t'.size ≡ 1)))
btree_insert-IsValid_example =
    btree_insert-IsValid ints 0 one_key (int (pos 9)) 90 (omega arith) tt one_key-IsValid

btree_search-insert_example : btree_search 1 two_keys (int (pos 3)) ≡ (
    if is_equal (compare (int (pos 3)) (int (negsuc 4)))
    then returns (some (50 ∷ []))
    else btree_search 1 one_key (int (pos 3)))
unfolding program
btree_search-insert_example =
    btree_search-insert ints 0 0 one_key two_keys (int (negsuc 4)) (int (pos 3)) 50 (omega arith) tt
      tt one_key-IsValid refl

insert_all-capacity_example :
    (t u : BTreeIndex ℕ) × (insert_all 1
        ((int (pos 3), 30) ∷ (int (negsuc 4), 50) ∷ [])
        (new_btree_index 1)
      ≡ returns t)
    × (t.size ≡ 1 * 2)
    × (btree_insert 1 t (int (pos 7)) 70 ≡ panics u)
    × (u.size ≡ 1 * 2)
    × (length (keys_of u.root) + 1 ≡ 1)
insert_all-capacity_example =
    insert_all-capacity ints 0 1 ((int (pos 3), 30) ∷ (int (negsuc 4), 50) ∷ []) (int (pos 7)) 70
      (omega arith) (tt, (tt, tt)) refl

btree_search-confused_example :
    btree_search 1 two_keys (str (bytes "ana")) ≡ returns (some (50 ∷ []))
btree_search-confused_example =
    btree_search-confused (bytes "ana") 0 two_keys (int (negsuc 4)) (int (pos 3) ∷ []) 2 (50 ∷ [])
      ((30 ∷ []) ∷ []) refl (tt, (tt, tt))
