-- ===== src/Paths/Clean.antt =====
-- Go's package path/filepath: the parts of a path that was cleaned.
use lsengine_js.Base.{
  ◌≡◌, refl, true, false, List, [], ◌∷◌, All, All-append, Bool-cases, inl, inr, Text, bytes,
  text_eq, has_prefix, is_empty, split, NotByte, split-NotByte,
}
use lsengine_js.Paths.{drop_last, go_up, clean_part, clean_parts, from_root, clean}

-- The name of a file or of a directory, and not `.` or `..`.
abbrev pub IsName : Text → Type 0
IsName p =
    (is_empty p ≡ false)
    × NotByte b'/' p
    × (text_eq p (bytes ".") ≡ false)
    × (text_eq p (bytes "..") ≡ false)

pub drop_last-All {ℓ κ} :
    {A : Type ℓ} (P : A → Type κ) (xs : List A) → All P xs → All P (drop_last xs)
unfolding drop_last
drop_last-All P [] h = tt
drop_last-All P (x ∷ []) h = tt
drop_last-All P (x ∷ y ∷ xs) h = (h.0, drop_last-All P (y ∷ xs) h.1)

clean_part-IsName :
    (kept : List Text) (p : Text)
    → All IsName kept
    → NotByte b'/' p
    → All IsName (clean_part true kept p)
unfolding clean_part go_up
clean_part-IsName kept p h n = elim (Bool-cases (is_empty p)) [
  | inl e ↦ rw e h
  | inr e ↦ elim (Bool-cases (text_eq p (bytes "."))) [
    | inl f ↦ rw (e, f) h
    | inr f ↦ elim (Bool-cases (text_eq p (bytes ".."))) [
      | inl g ↦ rw (e, f, g) (drop_last-All IsName kept h)
      | inr g ↦ rw (e, f, g) (All-append IsName kept (p ∷ []) h ((e, n, f, g), tt))
    ]
  ]
]

clean_parts-IsName :
    (kept ps : List Text)
    → All IsName kept
    → All (NotByte b'/') ps
    → All IsName (clean_parts true kept ps)
unfolding clean_parts
clean_parts-IsName kept [] h n = h
clean_parts-IsName kept (p ∷ ps) h n =
    clean_parts-IsName (clean_part true kept p) ps (clean_part-IsName kept p h n.0) n.1

-- A cleaned path from the root is made of names only: no `..` is left of it.
pub clean-IsName :
    (path : Text)
    → has_prefix path (bytes "/") ≡ true
    → (ps : List Text) × All IsName ps × (clean path ≡ from_root ps)
unfolding clean
clean-IsName path h = (
  clean_parts true [] (split b'/' path),
  clean_parts-IsName [] (split b'/' path) tt (split-NotByte b'/' path),
  rw h refl,
)
