-- ===== src/Base/Strings.antt =====
-- What the program uses of Go's package strings, on ASCII texts.
use Prim.Native.Nat.{ℕ, ◌+◌}
use mathlib.Core.Path.{◌≡◌, refl}
use mathlib.Core.Logic.{◌≢◌, inl, inr}
use mathlib.Core.Bool.{Bool, true, false, ◌&&◌, ◌||◌}
use mathlib.Core.List.{List, [], ◌∷◌, ◌++◌}
use native.Mathlib.Omega.{arith}
use lsengine_js.Base.Logic.{if◌then◌else◌, ◌==◌, leb, Bool-cases}
use lsengine_js.Base.Lists.{All}
use lsengine_js.Base.Texts.{Text, text_eq, has_prefix}

abbrev pub NotByte : ℕ → Text → Type 0
NotByte c s = All (λ x. x ≢ c) s

abbrev pub is_empty : Text → Bool
is_empty [] = true
is_empty (c ∷ s) = false

abbrev cons_first : ℕ → List Text → List Text
cons_first x [] = (x ∷ []) ∷ []
cons_first x (p ∷ ps) = (x ∷ p) ∷ ps

-- `strings.Split s c` for a separator of one byte
unfoldable pub split : ℕ → Text → List Text
split c [] = [] ∷ []
split c (x ∷ s) = if x == c then [] ∷ split c s else cons_first x (split c s)

-- `strings.Join`
unfoldable pub join_with : Text → List Text → Text
join_with sep [] = []
join_with sep (p ∷ []) = p
join_with sep (p ∷ q ∷ ps) = p ++ (sep ++ join_with sep (q ∷ ps))

unfoldable pub concat : List Text → Text
concat [] = []
concat (p ∷ ps) = p ++ concat ps

unfoldable pub to_lower : Text → Text
to_lower [] = []
to_lower (c ∷ s) = (if leb b'A' c && leb c b'Z' then c + 32 else c) ∷ to_lower s

abbrev pub is_space : ℕ → Bool
is_space c = c == b' ' || (leb 9 c && leb c 13)

unfoldable pub trim_left : Text → Text
trim_left [] = []
trim_left (c ∷ s) = if is_space c then trim_left s else c ∷ s

abbrev keep_unless_blank : ℕ → Text → Text
keep_unless_blank c [] = if is_space c then [] else c ∷ []
keep_unless_blank c (d ∷ rest) = c ∷ d ∷ rest

unfoldable pub trim_right : Text → Text
trim_right [] = []
trim_right (c ∷ s) = keep_unless_blank c (trim_right s)

unfoldable pub trim_space : Text → Text
unfolding trim_left trim_right
trim_space s = trim_right (trim_left s)

unfoldable pub has_suffix : Text → Text → Bool
unfolding text_eq
has_suffix [] p = text_eq [] p
has_suffix (c ∷ s) p = text_eq (c ∷ s) p || has_suffix s p

unfoldable pub contains : Text → Text → Bool
unfolding has_prefix
contains [] p = has_prefix [] p
contains (c ∷ s) p = has_prefix (c ∷ s) p || contains s p

cons_first-NotByte :
    (c x : ℕ) (ps : List Text) → x ≢ c → All (NotByte c) ps → All (NotByte c) (cons_first x ps)
cons_first-NotByte c x [] h k = ((h, tt), tt)
cons_first-NotByte c x (p ∷ ps) h k = ((h, k.0), k.1)

-- No part of a split text has the separator.
pub split-NotByte : (c : ℕ) (s : Text) → All (NotByte c) (split c s)
unfolding split
split-NotByte c [] = (tt, tt)
split-NotByte c (x ∷ s) = elim (Bool-cases (x == c)) [
  | inl e ↦ rw e (tt, split-NotByte c s)
  | inr e ↦ rw e (cons_first-NotByte c x (split c s) (ground arith) (split-NotByte c s))
]

pub split-append : (c : ℕ) (p s : Text) → NotByte c p → split c (p ++ (c ∷ s)) ≡ p ∷ split c s
unfolding split
split-append c [] s h = ground arith
split-append c (x ∷ p) s h = ground (arith, split-append c p s h.1)

pub split-one : (c : ℕ) (p : Text) → NotByte c p → split c p ≡ p ∷ []
unfolding split
split-one c [] h = refl
split-one c (x ∷ p) h = ground (arith, split-one c p h.1)

-- Parts without the separator come back from their join.
pub split-join_with :
    (c : ℕ) (p : Text) (ps : List Text)
    → NotByte c p
    → All (NotByte c) ps
    → split c (join_with (c ∷ []) (p ∷ ps)) ≡ p ∷ ps
unfolding join_with
split-join_with c p [] h k = split-one c p h
split-join_with c p (q ∷ ps) h k =
    rw (split-append c p (join_with (c ∷ []) (q ∷ ps)) h, split-join_with c q ps k.0 k.1) refl
