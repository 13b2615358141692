-- ===== src/Paths/Inside.antt =====
-- Go's package path/filepath: a path whose `Rel` does not begin with `..` is below the base.
use lsengine_js.Base.{
  ◌≡◌, refl, sym, ◌∙◌, ap, subst, true, false, List, [], ◌∷◌, ◌++◌, arith, if◌then◌else◌, All,
  All-append, All-append_inv, Bool-cases, inl, inr, Text, bytes, text_eq, text_eq_iff, has_prefix,
  is_empty, split, join_with, NotByte, split-join_with, split-one,
}
use mathlib.Core.List.{append_assoc, append-nil}
use lsengine_js.Paths.{
  clean_part, clean_parts, join_slash, from_root, clean, join_path, drop_empty, parts_of, up_from,
  strip_common, rel_path,
}
use lsengine_js.Paths.Clean.{IsName, clean-IsName}

drop_empty-IsName : (ps : List Text) → All IsName ps → drop_empty ps ≡ ps
unfolding drop_empty
drop_empty-IsName [] h = refl
drop_empty-IsName (p ∷ ps) h = rw (h.0.0, drop_empty-IsName ps h.1) refl

pub names-NotByte : (ps : List Text) → All IsName ps → All (NotByte b'/') ps
names-NotByte [] h = tt
names-NotByte (p ∷ ps) h = (h.0.1, names-NotByte ps h.1)

pub split-from_root :
    (p : Text) (ps : List Text)
    → All IsName (p ∷ ps)
    → split b'/' (from_root (p ∷ ps)) ≡ [] ∷ p ∷ ps
unfolding from_root join_slash split
split-from_root p ps h = ap (λ l. [] ∷ l) (split-join_with b'/' p ps h.0.1 (names-NotByte ps h.1))

root_lem : (parts_of (from_root []) ≡ []) × (clean (from_root []) ≡ from_root [])
unfolding parts_of clean clean_parts clean_part from_root join_slash join_with split drop_empty
    has_prefix
root_lem = (refl, refl)

pub from_root-prefix : (ps : List Text) → has_prefix (from_root ps) (bytes "/") ≡ true
unfolding from_root has_prefix
from_root-prefix ps = refl

pub parts_of-from_root : (ps : List Text) → All IsName ps → parts_of (from_root ps) ≡ ps
unfolding parts_of
parts_of-from_root [] h = root_lem.0
parts_of-from_root (p ∷ ps) h =
    rw (split-from_root p ps h, drop_empty) (drop_empty-IsName (p ∷ ps) h)

pub clean_parts-names :
    (kept ps : List Text) → All IsName ps → clean_parts true kept ps ≡ kept ++ ps
unfolding clean_parts clean_part
clean_parts-names kept [] h = sym (append-nil kept)
clean_parts-names kept (p ∷ ps) h =
    rw (clean_parts, clean_part, h.0.0, h.0.2, h.0.3)
      (clean_parts-names (kept ++ (p ∷ [])) ps h.1 ∙ append_assoc kept (p ∷ []) ps)

pub clean_skip : (ps : List Text) → clean_parts true [] ([] ∷ ps) ≡ clean_parts true [] ps
unfolding clean_parts clean_part
clean_skip ps = refl

pub clean-from_root : (ps : List Text) → All IsName ps → clean (from_root ps) ≡ from_root ps
unfolding clean
clean-from_root [] h = root_lem.1
clean-from_root (p ∷ ps) h =
    rw (from_root-prefix (p ∷ ps), split-from_root p ps h)
      (ap from_root (clean_skip (p ∷ ps) ∙ clean_parts-names [] (p ∷ ps) h))

abbrev pub dot_or : List Text → Text
dot_or ps = if is_empty (join_slash ps) then bytes "." else join_slash ps

up_from-prefix :
    (b : Text) (base targ : List Text)
    → has_prefix (dot_or (up_from (b ∷ base) targ)) (bytes "..") ≡ true
unfolding up_from join_slash join_with has_prefix
up_from-prefix b [] [] = refl
up_from-prefix b [] (t ∷ targ) = refl
up_from-prefix b (c ∷ base) targ = refl

-- Where `Rel` does not begin with `..`, the target has the parts of the base first.
strip_common-below :
    (base targ : List Text)
    → has_prefix (dot_or (strip_common base targ)) (bytes "..") ≡ false
    → targ ≡ base ++ strip_common base targ
unfolding strip_common
strip_common-below [] targ h = refl
strip_common-below (b ∷ base) [] h = absurd (ground (arith, up_from-prefix b base []))
strip_common-below (b ∷ base) (t ∷ targ) h = elim (Bool-cases (text_eq b t)) [
  | inl e ↦
      (let same : b ≡ t = (text_eq_iff b t).0 e in
        let k : strip_common (b ∷ base) (t ∷ targ) ≡ strip_common base targ =
          rw (strip_common, e) refl in
        let rest =
          strip_common-below base targ
            (subst (λ x. has_prefix (dot_or x) (bytes "..") ≡ false) k h) in
        rw k (ap (λ l. t ∷ l) rest ∙ ap (λ x. x ∷ (base ++ strip_common base targ)) (sym same)))
  | inr e ↦ absurd (ground (arith, up_from-prefix b base (t ∷ targ)))
]

-- What it is to be below the directory with parts `rs`.
abbrev pub IsBelow : List Text → Text → Type 0
IsBelow rs full = (rest : List Text) × All IsName rest × (full ≡ from_root (rs ++ rest))

-- A path from the root whose `Rel` to a directory does not begin with `..` is below it, and is that `Rel`
-- after the directory.
pub rel_path-IsBelow :
    (rs : List Text) (full : Text)
    → All IsName rs
    → has_prefix full (bytes "/") ≡ true
    → clean full ≡ full
    → has_prefix (rel_path (from_root rs) full) (bytes "..") ≡ false
    → (rest : List Text) × All IsName rest
      × (full ≡ from_root (rs ++ rest))
      × (rel_path (from_root rs) full ≡ dot_or rest)
unfolding rel_path
rel_path-IsBelow rs full names slash cleaned h =
    (let (fs, fnames, fe) = clean-IsName full slash in
      let base : parts_of (clean (from_root rs)) ≡ rs =
        ap parts_of (clean-from_root rs names) ∙ parts_of-from_root rs names in
      let targ : parts_of (clean full) ≡ fs = ap parts_of fe ∙ parts_of-from_root fs fnames in
      let k : rel_path (from_root rs) full ≡ dot_or (strip_common rs fs) = rw (base, targ) refl in
      let below = strip_common-below rs fs (subst (λ x. has_prefix x (bytes "..") ≡ false) k h) in
      (
        strip_common rs fs,
        (All-append_inv IsName rs (strip_common rs fs) (subst (All IsName) below fnames)).1,
        sym cleaned ∙ fe ∙ ap from_root below,
        k,
      ))

pub join_path-from_root :
    (rs : List Text) (c : Text)
    → (ps : List Text) × All IsName ps × (join_path (from_root rs) c ≡ from_root ps)
unfolding join_path from_root has_prefix
join_path-from_root rs c = clean-IsName (from_root rs ++ (b'/' ∷ c)) refl

-- A joined path whose `Rel` to the directory does not begin with `..` is below the directory.
pub join_path-IsBelow :
    (rs : List Text) (c : Text)
    → All IsName rs
    → has_prefix (rel_path (from_root rs) (join_path (from_root rs) c)) (bytes "..") ≡ false
    → (rest : List Text) × All IsName rest
      × (join_path (from_root rs) c ≡ from_root (rs ++ rest))
      × (rel_path (from_root rs) (join_path (from_root rs) c) ≡ dot_or rest)
join_path-IsBelow rs c names h =
    (let (ps, pnames, e) = join_path-from_root rs c in
      rel_path-IsBelow rs (join_path (from_root rs) c) names
        (ap (λ x. has_prefix x (bytes "/")) e ∙ from_root-prefix ps)
        (ap clean e ∙ clean-from_root ps pnames ∙ sym e) h)

join_with-end :
    (sep : Text) (q : Text) (ps : List Text) (p : Text)
    → join_with sep ((q ∷ ps) ++ (p ∷ [])) ≡ join_with sep (q ∷ ps) ++ (sep ++ p)
unfolding join_with
join_with-end sep q [] p = refl
join_with-end sep q (r ∷ ps) p = rw (join_with-end sep r ps p) (
    sym (
      append_assoc q (sep ++ join_with sep (r ∷ ps)) (sep ++ p)
      ∙ ap (λ x. q ++ x) (append_assoc sep (join_with sep (r ∷ ps)) (sep ++ p))))

from_root-end :
    (f : Text) (fs : List Text) (name : Text)
    → from_root (f ∷ fs) ++ (b'/' ∷ name) ≡ from_root ((f ∷ fs) ++ (name ∷ []))
unfolding from_root join_slash
from_root-end f fs name = ap (λ x. b'/' ∷ x) (sym (join_with-end (bytes "/") f fs name))

clean_file :
    (name : Text) → IsName name → clean (from_root [] ++ (b'/' ∷ name)) ≡ from_root (name ∷ [])
unfolding clean from_root join_slash join_with split has_prefix
clean_file name n = rw (split-one b'/' name n.1, clean_parts, clean_part, n.0, n.2, n.3) refl

-- A file of a directory.
pub join_path-name :
    (fs : List Text) (name : Text)
    → All IsName fs
    → IsName name
    → join_path (from_root fs) name ≡ from_root (fs ++ (name ∷ []))
unfolding join_path
join_path-name [] name h n = clean_file name n
join_path-name (f ∷ fs) name h n =
    ap clean (from_root-end f fs name)
    ∙ clean-from_root ((f ∷ fs) ++ (name ∷ [])) (All-append IsName (f ∷ fs) (name ∷ []) h (n, tt))

-- A longer last part.
pub from_root-longer :
    (fs : List Text) (p s : Text)
    → from_root (fs ++ (p ∷ [])) ++ s ≡ from_root (fs ++ ((p ++ s) ∷ []))
unfolding from_root join_slash join_with
from_root-longer [] p s = refl
from_root-longer (f ∷ fs) p s =
    ap (λ x. b'/' ∷ (x ++ s)) (join_with-end (bytes "/") f fs p)
    ∙ ap (λ x. b'/' ∷ x) (append_assoc (join_with (bytes "/") (f ∷ fs)) (bytes "/" ++ p) s)
    ∙ ap (λ x. b'/' ∷ x) (sym (join_with-end (bytes "/") f fs (p ++ s)))
