-- ===== src/Base/Maps.antt =====
-- A Go map with string keys is an association list with distinct keys. The order of its entries
-- stands for the order of one iteration, so nothing that is proved may depend on it.
use Prim.Native.Nat.{◌+◌, ◌≤◌}
use mathlib.Core.Path.{◌≡◌, refl}
use mathlib.Core.Logic.{◌≢◌, ◌⊎◌, inl}
use mathlib.Core.Option.{Option, none, some}
use mathlib.Core.List.{List, [], ◌∷◌}
use native.Mathlib.Omega.{arith}
use lsengine_js.Base.Logic.{if◌then◌else◌}
use lsengine_js.Base.Lists.{length}
use lsengine_js.Base.Texts.{Text, text_eq, text_eq_iff}

module _ {ℓ} {V : Type ℓ} where
  unfoldable pub lookup : Text → List (Text × V) → Option V
  lookup key [] = none
  lookup key (entry ∷ m) = if text_eq entry.0 key then some entry.1 else lookup key m

  -- `m[key] = value`
  unfoldable pub insert : Text → V → List (Text × V) → List (Text × V)
  insert key value [] = (key, value) ∷ []
  insert key value (entry ∷ m) =
      if text_eq entry.0 key then (key, value) ∷ m else entry ∷ insert key value m

  -- `delete(m, k)`
  unfoldable pub delete : Text → List (Text × V) → List (Text × V)
  delete k [] = []
  delete k ((j, w) ∷ m) = if text_eq j k then delete k m else (j, w) ∷ delete k m

  -- No key occurs twice.
  abbrev pub IsDistinct : List (Text × V) → Type ℓ
  IsDistinct [] = Unit
  IsDistinct ((k, v) ∷ m) = (lookup k m ≡ none) × IsDistinct m

  pub lookup-insert :
      (key q : Text) (value : V) (m : List (Text × V))
      → lookup q (insert key value m) ≡ (if text_eq key q then some value else lookup q m)
  unfolding lookup insert
  lookup-insert key q value [] = refl
  lookup-insert key q value (entry ∷ m) = ground (
    arith,
    lookup-insert key q value m,
    text_eq_iff entry.0 key,
    text_eq_iff entry.0 q,
    text_eq_iff key q,
  )

  pub lookup-delete :
      (k j : Text) (m : List (Text × V))
      → lookup j (delete k m) ≡ (if text_eq k j then none else lookup j m)
  unfolding lookup delete
  lookup-delete k j [] = ground arith
  lookup-delete k j ((i, w) ∷ m) =
      ground (arith, text_eq_iff k j, text_eq_iff i k, text_eq_iff i j, lookup-delete k j m)

  pub insert-IsDistinct :
      (k : Text) (v : V) (m : List (Text × V)) → IsDistinct m → IsDistinct (insert k v m)
  unfolding insert lookup
  insert-IsDistinct k v [] h = (refl, tt)
  insert-IsDistinct k v ((j, w) ∷ m) h =
      ground (
        arith,
        text_eq_iff j k,
        text_eq_iff k j,
        lookup-insert k j v m,
        insert-IsDistinct k v m h.1,
      )

  pub delete-IsDistinct : (k : Text) (m : List (Text × V)) → IsDistinct m → IsDistinct (delete k m)
  unfolding delete lookup
  delete-IsDistinct k [] h = tt
  delete-IsDistinct k ((j, w) ∷ m) h =
      ground (arith, text_eq_iff j k, lookup-delete k j m, delete-IsDistinct k m h.1)

  -- A new key adds an entry, and a known one replaces its own.
  pub length-insert :
      (k : Text) (v : V) (m : List (Text × V))
      → ((lookup k m ≡ none) × (length (insert k v m) ≡ length m + 1))
        ⊎ ((lookup k m ≢ none) × (length (insert k v m) ≡ length m))
  unfolding lookup insert
  length-insert k v [] = inl (refl, omega arith)
  length-insert k v ((j, w) ∷ m) = ground (arith, length-insert k v m)

  pub length-delete-le : (k : Text) (m : List (Text × V)) → length (delete k m) ≤ length m
  unfolding delete
  length-delete-le k [] = omega arith
  length-delete-le k ((j, w) ∷ m) = ground (arith, length-delete-le k m)
