-- ===== src/Btree/Order.antt =====
-- lsengine/internal/jsondb/btree.go: `compare` orders the keys of one dynamic type.
use lsengine_js.Base.{◌≡◌, refl, true, false, [], ◌∷◌, arith, Text}
use lsengine_js.Btree.Keys.{
  Key, str, int, float, Comparison, less, equal, greater, text_lt, float_is_nan, compare, at_least,
}

-- The dynamic types on which `compare` is an order; NaN belongs to none of them.
pub data Kind : Type 0 where
  strings ints floats : Kind

abbrev pub HasKind : Kind → Key → Type 0
HasKind strings (str a) = Unit
HasKind ints (int a) = Unit
HasKind floats (float b) = float_is_nan b ≡ false
HasKind _ _ = ⊥

abbrev pub opposite : Comparison → Comparison
opposite less = greater
opposite equal = equal
opposite greater = less

text_lt_asymm : (a b : Text) → text_lt a b ≡ true → text_lt b a ≡ false
unfolding text_lt
text_lt_asymm [] [] h = refl
text_lt_asymm [] (y ∷ b) h = refl
text_lt_asymm (x ∷ a) [] h = ground arith
text_lt_asymm (x ∷ a) (y ∷ b) h = ground (arith, text_lt_asymm a b)

-- `≤` on strings is transitive, as "not less the other way".
text_le_trans : (a b c : Text) → text_lt b a ≡ false → text_lt c b ≡ false → text_lt c a ≡ false
unfolding text_lt
text_le_trans [] b [] h k = refl
text_le_trans [] b (z ∷ c) h k = refl
text_le_trans (x ∷ a) [] c h k = ground arith
text_le_trans (x ∷ a) (y ∷ b) [] h k = ground arith
text_le_trans (x ∷ a) (y ∷ b) (z ∷ c) h k = ground (arith, text_le_trans a b c)

pub compare_flip :
    (κ : Kind) (a b : Key) → HasKind κ a → HasKind κ b → compare b a ≡ opposite (compare a b)
unfolding compare
compare_flip strings (str a) (str b) h k = ground (arith, text_lt_asymm a b, text_lt_asymm b a)
compare_flip ints (int a) (int b) h k = ground arith
compare_flip floats (float a) (float b) h k = ground arith
compare_flip _ _ _ h k = ground arith

pub compare_trans :
    (κ : Kind) (a b c : Key)
    → HasKind κ a
    → HasKind κ b
    → HasKind κ c
    → at_least (compare b a) ≡ true
    → at_least (compare c b) ≡ true
    → at_least (compare c a) ≡ true
unfolding compare
compare_trans strings (str a) (str b) (str c) _ _ _ h k = ground (arith, text_le_trans a b c)
compare_trans ints (int a) (int b) (int c) _ _ _ h k = ground arith
compare_trans floats (float a) (float b) (float c) p q r h k = ground arith
compare_trans _ _ _ _ p q r h k = ground arith
