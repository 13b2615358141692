-- ===== src/Paths.antt =====
-- What lsengine/internal/security/security.go and lsengine/internal/server/server.go use of Go's package
-- path/filepath, on a system whose separator is `/`: a path is cleaned part by part.
pub mod Clean
pub mod Inside
pub mod Below
use lsengine_js.Base.{
  Bool, true, false, Option, none, some, List, [], ◌∷◌, ◌++◌, if◌then◌else◌, ◌==◌, Text, bytes,
  text_eq, has_prefix, is_empty, split, join_with,
}

unfoldable pub drop_last {ℓ} : {A : Type ℓ} → List A → List A
drop_last [] = []
drop_last (x ∷ []) = []
drop_last (x ∷ y ∷ xs) = x ∷ drop_last (y ∷ xs)

unfoldable pub last? {ℓ} : {A : Type ℓ} → List A → Option A
last? [] = none
last? (x ∷ []) = some x
last? (x ∷ y ∷ xs) = last? (y ∷ xs)

-- `..` after the parts that are kept: a path from the root stays there, and another one keeps the `..`
-- that it cannot take back.
unfoldable pub go_up : Bool → List Text → List Text
unfolding drop_last last?
go_up true kept = drop_last kept
go_up false kept = elim (last? kept) [
  | none ↦ bytes ".." ∷ []
  | some p ↦ if text_eq p (bytes "..") then kept ++ (bytes ".." ∷ []) else drop_last kept
]

unfoldable pub clean_part : Bool → List Text → Text → List Text
unfolding go_up
clean_part rooted kept p =
    if is_empty p
    then kept
    else if text_eq p (bytes ".")
    then kept
    else if text_eq p (bytes "..")
    then go_up rooted kept
    else kept ++ (p ∷ [])

unfoldable pub clean_parts : Bool → List Text → List Text → List Text
unfolding clean_part
clean_parts rooted kept [] = kept
clean_parts rooted kept (p ∷ ps) = clean_parts rooted (clean_part rooted kept p) ps

unfoldable pub join_slash : List Text → Text
join_slash ps = join_with (bytes "/") ps

-- The path from the root with these parts.
unfoldable pub from_root : List Text → Text
unfolding join_slash
from_root ps = b'/' ∷ join_slash ps

-- `filepath.Clean`
unfoldable pub clean : Text → Text
unfolding clean_parts from_root
clean path =
    if has_prefix path (bytes "/")
    then from_root (clean_parts true [] (split b'/' path))
    else (let text = join_slash (clean_parts false [] (split b'/' path)) in
        if is_empty text then bytes "." else text)

-- `filepath.Join` of two elements
unfoldable pub join_path : Text → Text → Text
unfolding clean
join_path a b = if is_empty a then (if is_empty b then [] else clean b) else clean (a ++ (b'/' ∷ b))

unfoldable pub drop_empty : List Text → List Text
drop_empty [] = []
drop_empty (p ∷ ps) = if is_empty p then drop_empty ps else p ∷ drop_empty ps

-- The parts of a path that is clean.
unfoldable pub parts_of : Text → List Text
unfolding drop_empty
parts_of path = drop_empty (split b'/' path)

unfoldable pub up_from : List Text → List Text → List Text
up_from [] targ = targ
up_from (b ∷ base) targ = bytes ".." ∷ up_from base targ

unfoldable pub strip_common : List Text → List Text → List Text
unfolding up_from
strip_common [] targ = targ
strip_common (b ∷ base) [] = up_from (b ∷ base) []
strip_common (b ∷ base) (t ∷ targ) =
    if text_eq b t then strip_common base targ else up_from (b ∷ base) (t ∷ targ)

-- `filepath.Rel` of two paths from the root, where it gives no error
unfoldable pub rel_path : Text → Text → Text
unfolding strip_common parts_of clean
rel_path base targ =
    let text = join_slash (strip_common (parts_of (clean base)) (parts_of (clean targ))) in
    if is_empty text then bytes "." else text

-- `filepath.Ext`: what the last part has from its last dot on; `ext` is what was found so far.
unfoldable pub ext_from : Text → Text → Text
ext_from ext [] = ext
ext_from ext (c ∷ s) =
    ext_from
      (if c == b'/'
        then []
        else if c == b'.'
        then b'.' ∷ []
        else elim ext [ [] ↦ [] | d ∷ e ↦ (d ∷ e) ++ (c ∷ []) ])
      s

unfoldable pub ext : Text → Text
unfolding ext_from
ext path = ext_from [] path
