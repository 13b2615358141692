-- ===== src/Security/Directories.antt =====
-- lsengine/internal/security/security.go, `AllowedSubdirs`: which first directories an accepted path has.
use lsengine_js.Base.{
  if_true, ◌≡◌, refl, sym, ◌∙◌, ap, subst, true, List, [], ◌∷◌, ◌++◌, arith, All, Bool-cases, inl,
  inr, Text, bytes, text_eq, text_eq_iff, has_prefix, contains, NotByte, split, split-append,
  join_with,
}
use lsengine_js.Paths.{join_slash}
use lsengine_js.Paths.Clean.{IsName}
use lsengine_js.Paths.Inside.{dot_or}
use lsengine_js.Security.{allowed_subdirs, is_listed, first_part, in_subdir, is_allowed_directory}

-- The directories that the policy of security.go names.
abbrev built_in_directories : List Text
built_in_directories =
    bytes "js"
    ∷ bytes "public"
    ∷ bytes "public/js"
    ∷ bytes "modules"
    ∷ bytes "scripts"
    ∷ bytes "src"
    ∷ bytes "lib"
    ∷ bytes "components"
    ∷ []

-- The path of a file: in the directory itself, or in a directory whose first part the policy names.
abbrev pub IsAllowedPlace : List Text → Type 0
IsAllowedPlace [] = Unit
IsAllowedPlace (p ∷ []) = Unit
IsAllowedPlace (p ∷ q ∷ ps) = is_listed p built_in_directories ≡ true

prefix_part :
    (p sub r s : Text)
    → NotByte b'/' p
    → NotByte b'/' sub
    → has_prefix (p ++ (b'/' ∷ r)) (sub ++ (b'/' ∷ s)) ≡ true
    → p ≡ sub
unfolding has_prefix
prefix_part [] [] r s h k e = refl
prefix_part [] (y ∷ sub) r s h k e = ground arith
prefix_part (x ∷ p) [] r s h k e = ground arith
prefix_part (x ∷ p) (y ∷ sub) r s h k e = ground (arith, prefix_part p sub r s h.1 k.1)

-- A listed directory, whose own first part is listed too.
abbrev Listed : Text → Type 0
Listed sub =
    (h s : Text) × (sub ++ bytes "/" ≡ h ++ (b'/' ∷ s))
    × NotByte b'/' h
    × (is_listed h allowed_subdirs ≡ true)
    × (is_listed sub allowed_subdirs ≡ true)

subdirs-Listed : All Listed allowed_subdirs
unfolding text_eq
subdirs-Listed = (
  (bytes "js", [], refl, omega arith, refl, refl),
  (
    (bytes "public", [], refl, omega arith, refl, refl),
    (
      (bytes "public", bytes "js/", refl, omega arith, refl, refl),
      (
        (bytes "modules", [], refl, omega arith, refl, refl),
        (
          (bytes "scripts", [], refl, omega arith, refl, refl),
          (
            (bytes "src", [], refl, omega arith, refl, refl),
            (
              (bytes "lib", [], refl, omega arith, refl, refl),
              ((bytes "components", [], refl, omega arith, refl, refl), tt),
            ),
          ),
        ),
      ),
    ),
  ),
)

in_subdir-is_listed :
    (p r : Text) (subs : List Text)
    → NotByte b'/' p
    → All Listed subs
    → in_subdir (p ++ (b'/' ∷ r)) subs ≡ true
    → is_listed p allowed_subdirs ≡ true
unfolding in_subdir
in_subdir-is_listed p r [] n l e = absurd (ground arith)
in_subdir-is_listed p r (sub ∷ subs) n ((h, s, same, k, lh, ls), l) e =
    elim (Bool-cases (text_eq (first_part (split b'/' (p ++ (b'/' ∷ r)))) sub)) [
      | inl f ↦
          (let here : p ≡ sub =
              sym (ap first_part (split-append b'/' p r n)) ∙ (text_eq_iff _ sub).0 f in
            subst (λ x. is_listed x allowed_subdirs ≡ true) (sym here) ls)
      | inr f ↦ elim (Bool-cases (has_prefix (p ++ (b'/' ∷ r)) (sub ++ bytes "/"))) [
        | inl g ↦
            (let here =
                prefix_part p h r s n k
                  (subst (λ x. has_prefix (p ++ (b'/' ∷ r)) x ≡ true) same g) in
              subst (λ x. is_listed x allowed_subdirs ≡ true) (sym here) lh)
        | inr g ↦ in_subdir-is_listed p r subs n l (ground arith)
      ]
    ]

contains-slash : (p r : Text) → contains (p ++ (b'/' ∷ r)) (bytes "/") ≡ true
unfolding contains has_prefix
contains-slash [] r = refl
contains-slash (x ∷ p) r = ground (arith, contains-slash p r)

deep_place :
    (rel : Text)
    → is_allowed_directory rel ≡ true
    → contains rel (bytes "/") ≡ true
    → in_subdir rel allowed_subdirs ≡ true
unfolding is_allowed_directory
deep_place rel h k =
    sym (if_true (contains rel (bytes "/")) (in_subdir rel allowed_subdirs) true k) ∙ h

pub is_allowed_directory-IsAllowedPlace :
    (rest : List Text)
    → All IsName rest
    → is_allowed_directory (dot_or rest) ≡ true
    → IsAllowedPlace rest
is_allowed_directory-IsAllowedPlace [] h e = tt
is_allowed_directory-IsAllowedPlace (p ∷ []) h e = tt
is_allowed_directory-IsAllowedPlace ([] ∷ q ∷ ps) h e = absurd (ground arith)
is_allowed_directory-IsAllowedPlace ((x ∷ p) ∷ q ∷ ps) h e =
    (let r = join_with (bytes "/") (q ∷ ps) in
      let rel : dot_or ((x ∷ p) ∷ q ∷ ps) ≡ (x ∷ p) ++ (b'/' ∷ r) =
        unfold join_slash in unfold join_with in refl in
      let slash = contains-slash (x ∷ p) r in
      in_subdir-is_listed (x ∷ p) r allowed_subdirs h.0.1 subdirs-Listed
        (deep_place _ (subst (λ s. is_allowed_directory s ≡ true) rel e) slash))
