-- ===== src/Btree/Leaf.antt =====
-- lsengine/internal/jsondb/btree.go: a leaf is a sorted list of entries, and the binary searches of
-- `insertNonFull` and `Search` find what a walk from the left finds.
use lsengine_js.Base.{
  ℕ, zero, suc, ◌<◌, ◌≡◌, refl, true, Option, none, some, List, [], ◌∷◌, arith, inl, inr,
  if◌then◌else◌, length, All, Bool-cases,
}
use lsengine_js.Btree.Keys.{Key, compare, at_least, is_equal, key_at_least, at_most_key}
use lsengine_js.Btree.Sort.{IsMonotone, first_true}
use lsengine_js.Btree.Nodes.{insert_at}
use lsengine_js.Btree.Order.{Kind, HasKind, compare_flip, compare_trans}

-- Every key is at most each of the later ones.
abbrev pub IsSorted : List Key → Type 0
IsSorted [] = Unit
IsSorted (k ∷ ks) = All (λ j. at_least (compare j k) ≡ true) ks × IsSorted ks

-- The entries in order: where the new key goes, and what a search finds.
pub insert_keys : List Key → Key → List Key
insert_keys [] key = key ∷ []
insert_keys (k ∷ ks) key = if at_least (compare k key) then key ∷ k ∷ ks else k ∷ insert_keys ks key

pub insert_values {ℓ} : {A : Type ℓ} → List Key → List A → Key → A → List A
insert_values [] vs key v = v ∷ vs
insert_values (k ∷ ks) [] key v = v ∷ []
insert_values (k ∷ ks) (w ∷ vs) key v =
    if at_least (compare k key) then v ∷ w ∷ vs else w ∷ insert_values ks vs key v

-- The values of the first key that is not below `key`, if it is equal to it.
unfoldable pub find {ℓ} : {A : Type ℓ} → List Key → List A → Key → Option A
find [] vs key = none
find (k ∷ ks) [] key = none
find (k ∷ ks) (v ∷ vs) key =
    if at_least (compare k key)
    then (if is_equal (compare key k) then some v else none)
    else find ks vs key

module _ (κ : Kind) (key : Key) (hk : HasKind κ key) where
  at_least_later :
      (k : Key) (ks : List Key) (i : ℕ)
      → HasKind κ k
      → All (HasKind κ) ks
      → All (λ j. at_least (compare j k) ≡ true) ks
      → at_least (compare k key) ≡ true
      → i < length ks
      → key_at_least ks key i ≡ true
  at_least_later k (j ∷ ks) zero h a s p q = compare_trans κ key k j hk h a.0 p s.0
  at_least_later k (j ∷ ks) (suc i) h a s p q = at_least_later k ks i h a.1 s.1 p (omega arith)
  at_least_later k [] i h a s p q = absurd (omega arith)

  pub key_at_least-IsMonotone :
      (ks : List Key)
      → All (HasKind κ) ks
      → IsSorted ks
      → IsMonotone (length ks) (key_at_least ks key)
  key_at_least-IsMonotone [] a s i j p q h = absurd (omega arith)
  key_at_least-IsMonotone (k ∷ ks) a s zero zero p q h = h
  key_at_least-IsMonotone (k ∷ ks) a s zero (suc j) p q h =
      at_least_later k ks j a.0 a.1 s.0 h (omega arith)
  key_at_least-IsMonotone (k ∷ ks) a s (suc i) zero p q h = absurd (omega arith)
  key_at_least-IsMonotone (k ∷ ks) a s (suc i) (suc j) p q h =
      key_at_least-IsMonotone ks a.1 s.1 i j (omega arith) (omega arith) h

  -- Both searches use the same test.
  pub at_most_key-key_at_least :
      (ks : List Key) (i : ℕ) → All (HasKind κ) ks → at_most_key ks key i ≡ key_at_least ks key i
  at_most_key-key_at_least [] i a = refl
  at_most_key-key_at_least (k ∷ ks) zero a = ground (arith, compare_flip κ key k hk a.0)
  at_most_key-key_at_least (k ∷ ks) (suc i) a = at_most_key-key_at_least ks i a.1

  pub insert_at-insert_keys :
      (ks : List Key)
      → insert_at ks (first_true (length ks) (key_at_least ks key)) key ≡ insert_keys ks key
  unfolding insert_at insert_keys
  insert_at-insert_keys [] = refl
  insert_at-insert_keys (k ∷ ks) = ground (arith, insert_at-insert_keys ks)

  pub insert_at-insert_values {ℓ} :
      {A : Type ℓ} (ks : List Key) (vs : List A) (v : A)
      → length vs ≡ length ks
      → insert_at vs (first_true (length ks) (key_at_least ks key)) v ≡ insert_values ks vs key v
  unfolding insert_at insert_values
  insert_at-insert_values [] [] v h = refl
  insert_at-insert_values [] (w ∷ vs) v h = absurd (omega arith)
  insert_at-insert_values (k ∷ ks) [] v h = absurd (omega arith)
  insert_at-insert_values (k ∷ ks) (w ∷ vs) v h = ground (arith, insert_at-insert_values ks vs v)

  pub insert_keys-All : (ks : List Key) → All (HasKind κ) ks → All (HasKind κ) (insert_keys ks key)
  unfolding insert_keys
  insert_keys-All [] a = (hk, tt)
  insert_keys-All (k ∷ ks) a = elim (Bool-cases (at_least (compare k key))) [
    | inl p ↦ rw p (hk, a)
    | inr p ↦ rw p (a.0, insert_keys-All ks a.1)
  ]

  later_at_least :
      (k : Key) (ks : List Key)
      → HasKind κ k
      → All (HasKind κ) ks
      → All (λ j. at_least (compare j k) ≡ true) ks
      → at_least (compare k key) ≡ true
      → All (λ j. at_least (compare j key) ≡ true) ks
  later_at_least k [] h a s p = tt
  later_at_least k (j ∷ ks) h a s p =
      (compare_trans κ key k j hk h a.0 p s.0, later_at_least k ks h a.1 s.1 p)

  insert_keys_above :
      (k : Key) (ks : List Key)
      → All (λ j. at_least (compare j k) ≡ true) ks
      → at_least (compare key k) ≡ true
      → All (λ j. at_least (compare j k) ≡ true) (insert_keys ks key)
  unfolding insert_keys
  insert_keys_above k [] s p = (p, tt)
  insert_keys_above k (j ∷ ks) s p = elim (Bool-cases (at_least (compare j key))) [
    | inl q ↦ rw q (p, s)
    | inr q ↦ rw q (s.0, insert_keys_above k ks s.1 p)
  ]

  pub insert_keys-IsSorted :
      (ks : List Key) → All (HasKind κ) ks → IsSorted ks → IsSorted (insert_keys ks key)
  unfolding insert_keys
  insert_keys-IsSorted [] a s = (tt, tt)
  insert_keys-IsSorted (k ∷ ks) a s = elim (Bool-cases (at_least (compare k key))) [
    | inl p ↦ rw p ((p, later_at_least k ks a.0 a.1 s.0 p), s)
    | inr p ↦ rw p (
      insert_keys_above k ks s.0 (ground (arith, compare_flip κ k key a.0 hk)),
      insert_keys-IsSorted ks a.1 s.1,
    )
  ]

  -- What a search finds after an insertion: the new value at an equal key, else what it found before.
  pub find-insert {ℓ} :
      {A : Type ℓ} (ks : List Key) (vs : List A) (v : A) (q : Key)
      → HasKind κ q
      → All (HasKind κ) ks
      → IsSorted ks
      → length vs ≡ length ks
      → find (insert_keys ks key) (insert_values ks vs key v) q
        ≡ (if is_equal (compare q key) then some v else find ks vs q)
  unfolding find insert_keys insert_values
  find-insert [] [] v q hq a s h = ground (arith, compare_flip κ q key hq hk)
  find-insert [] (w ∷ vs) v q hq a s h = absurd (omega arith)
  find-insert (k ∷ ks) [] v q hq a s h = absurd (omega arith)
  find-insert (k ∷ ks) (w ∷ vs) v q hq a s h = ground (
    arith,
    find-insert ks vs v q hq a.1 s.1,
    compare_flip κ q key hq hk,
    compare_flip κ q k hq a.0,
    compare_flip κ key k hk a.0,
    compare_trans κ q key k hq hk a.0,
    compare_trans κ key q k hk hq a.0,
    compare_trans κ key k q hk a.0 hq,
    compare_trans κ k key q a.0 hk hq,
    compare_trans κ k q key a.0 hq hk,
    compare_trans κ q k key hq a.0 hk,
  )

pub length-insert_keys : (ks : List Key) (key : Key) → length (insert_keys ks key) ≡ suc (length ks)
unfolding insert_keys
length-insert_keys [] key = refl
length-insert_keys (k ∷ ks) key = ground (arith, length-insert_keys ks key)

pub length-insert_values {ℓ} :
    {A : Type ℓ} (ks : List Key) (vs : List A) (key : Key) (v : A)
    → length (insert_values ks vs key v) ≡ suc (length vs)
unfolding insert_values
length-insert_values [] vs key v = refl
length-insert_values (k ∷ ks) [] key v = refl
length-insert_values (k ∷ ks) (w ∷ vs) key v = ground (arith, length-insert_values ks vs key v)
