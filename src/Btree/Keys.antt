-- ===== src/Btree/Keys.antt =====
-- lsengine/internal/jsondb/btree.go: the keys of the index and their comparison.
use lsengine_js.Base.{
  ℕ, ◌-◌, ◌*◌, ◌%◌, ◌^◌, Bool, true, false, not, ◌&&◌, none, some, List, [], ◌∷◌, ltb, leb, ◌==◌,
  if◌then◌else◌, get_elem?, Text, ℤ, pos, negsuc, ltb_ℤ,
}

-- The dynamic types that `compare` tells apart. A float64 is its IEEE 754 bit pattern.
pub data Key : Type 0 where
  str : Text → Key
  int : ℤ → Key
  float : ℕ → Key
  other : Key

pub data Comparison : Type 0 where
  less equal greater : Comparison

-- `<` on strings: bytewise.
unfoldable pub text_lt : Text → Text → Bool
text_lt [] [] = false
text_lt [] (y ∷ ys) = true
text_lt (x ∷ xs) [] = false
text_lt (x ∷ xs) (y ∷ ys) = if ltb x y then true else if ltb y x then false else text_lt xs ys

-- `<` on float64, by sign and magnitude; a NaN is below nothing and above nothing.
unfoldable pub float_magnitude : ℕ → ℕ
float_magnitude b = b % 2 ^ 63

unfoldable pub float_is_nan : ℕ → Bool
unfolding float_magnitude
float_is_nan b = ltb (0x7ff * 2 ^ 52) (float_magnitude b)

unfoldable pub float_signed : ℕ → ℤ
unfolding float_magnitude
float_signed b =
    if leb (2 ^ 63) b
    then (if float_magnitude b == 0 then pos 0 else negsuc (float_magnitude b - 1))
    else pos (float_magnitude b)

unfoldable pub float_lt : ℕ → ℕ → Bool
unfolding float_is_nan float_signed
float_lt a b =
    not (float_is_nan a) && (not (float_is_nan b) && ltb_ℤ (float_signed a) (float_signed b))

-- the ladder that each case of `compare` repeats
abbrev pub ladder : Bool → Bool → Comparison
ladder true _ = less
ladder false true = greater
ladder false false = equal

unfoldable pub compare : Key → Key → Comparison
unfolding text_lt float_lt
compare (str a) (str b) = ladder (text_lt a b) (text_lt b a)
compare (int a) (int b) = ladder (ltb_ℤ a b) (ltb_ℤ b a)
compare (float a) (float b) = ladder (float_lt a b) (float_lt b a)
compare _ _ = equal

abbrev pub at_least : Comparison → Bool
at_least less = false
at_least _ = true

abbrev pub is_equal : Comparison → Bool
is_equal equal = true
is_equal _ = false

abbrev pub is_greater : Comparison → Bool
is_greater greater = true
is_greater _ = false

-- `compare(keys[j], key) >= 0`; sort.Search asks below `len(keys)` only.
abbrev pub key_at_least : List Key → Key → ℕ → Bool
key_at_least keys key j = elim (get_elem? keys j) [
  | none ↦ false
  | some k ↦ at_least (compare k key)
]

-- `idx < len(keys) && compare(key, keys[idx]) == 0`
abbrev pub key_equal : List Key → Key → ℕ → Bool
key_equal keys key i = elim (get_elem? keys i) [ none ↦ false | some k ↦ is_equal (compare key k) ]

-- `compare(key, keys[i]) <= 0`
abbrev pub at_most_key : List Key → Key → ℕ → Bool
at_most_key keys key i = elim (get_elem? keys i) [
  | none ↦ false
  | some k ↦ not (is_greater (compare key k))
]
