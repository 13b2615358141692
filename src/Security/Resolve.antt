-- ===== src/Security/Resolve.antt =====
-- lsengine/internal/security/security.go, `ResolveLocalPath`: where a path leads.
use lsengine_js.Base.{
  ◌≡◌, refl, sym, ◌∙◌, ap, subst, Bool, true, false, not, ◌&&◌, List, [], ◌∷◌, ◌++◌, arith,
  if◌then◌else◌, All, Bool-cases, inl, inr, Text, bytes, text_eq, has_prefix, has_suffix, split,
  to_lower, true-false,
}
use mathlib.Core.List.{append-nil}
use lsengine_js.Paths.{from_root, join_path, rel_path, ext}
use lsengine_js.Paths.Clean.{IsName}
use lsengine_js.Paths.Inside.{IsBelow, join_path-IsBelow}
use lsengine_js.Paths.Below.{NotUp, clean-below}
use lsengine_js.Security.{FileSystem, Refusal, Verdict, accepted, refused, leads_out, clean_import}
use lsengine_js.Security.Local.{js_file-IsBelow, false_left}
use lsengine_js.Security.Reading.{
  join_three, exists_at, in_known_subdir, known_subdirs, find_local, resolve_checks,
  resolve_local_path,
}
use lsengine_js.Security.Trim.{clean_import-NotUp}

-- A directory that is looked into: its parts are names.
abbrev Known : Text → Type 0
Known sub = (subs : List Text) × All IsName subs × (split b'/' sub ≡ subs)

subdirs-Known : All Known known_subdirs
unfolding text_eq split
subdirs-Known = (
  (bytes "js" ∷ [], ((refl, omega arith, refl, refl), tt), refl),
  (
    (
      bytes "public" ∷ bytes "js" ∷ [],
      ((refl, omega arith, refl, refl), ((refl, omega arith, refl, refl), tt)),
      refl,
    ),
    ((bytes "modules" ∷ [], ((refl, omega arith, refl, refl), tt), refl), tt),
  ),
)

three_checks :
    (a b c : Bool) (ra rb rc : Refusal) (found : Verdict Text) (path : Text)
    → (if a then refused ra else if b then refused rb else if c then refused rc else found)
      ≡ accepted path
    → (b ≡ false) × (found ≡ accepted path)
three_checks a b c ra rb rc found path e = ground arith

resolve_checks-accepted :
    (is_remote : Bool) (rel extension : Text) (found : Verdict Text) (path : Text)
    → resolve_checks is_remote rel extension found ≡ accepted path
    → (has_prefix rel (bytes "..") ≡ false) × (found ≡ accepted path)
unfolding resolve_checks
resolve_checks-accepted is_remote rel extension found path e =
    (let (inside, there) = three_checks is_remote (leads_out rel) _ _ _ _ found path e in
      (false_left _ _ inside, there))

module _ (fs : FileSystem) (rs : List Text) (names : All IsName rs) where
  in_known_subdir-IsBelow :
      (c result : Text) (subs : List Text)
      → All Known subs
      → All NotUp (split b'/' c)
      → in_known_subdir fs (from_root rs) c subs ≡ accepted result
      → IsBelow rs result × (exists_at fs result ≡ true)
  unfolding in_known_subdir join_three
  in_known_subdir-IsBelow c result [] k u e = absurd (ground arith)
  in_known_subdir-IsBelow c result (sub ∷ subs) ((parts, pnames, same), k) u e =
      elim (Bool-cases (exists_at fs (join_three (from_root rs) sub c))) [
        | inl there ↦
            (let here : join_three (from_root rs) sub c ≡ result = ground arith in
              let (rest, below, at) = clean-below rs parts sub c names pnames same u in
              ((rest, below, sym here ∙ at), subst (λ p. exists_at fs p ≡ true) here there))
        | inr missing ↦ in_known_subdir-IsBelow c result subs k u (ground arith)
      ]

  find_local-IsBelow :
      (full c result : Text) (rest : List Text)
      → All IsName rest
      → full ≡ from_root (rs ++ rest)
      → exists_at fs (from_root rs) ≡ true
      → All NotUp (split b'/' c)
      → find_local fs (from_root rs) full c ≡ accepted result
      → IsBelow rs result × (exists_at fs result ≡ true)
  unfolding find_local
  find_local-IsBelow full c result rest k same there u e = elim (Bool-cases (exists_at fs full)) [
    | inl f ↦
        (let here : full ≡ result = ground arith in
          ((rest, k, sym here ∙ same), subst (λ p. exists_at fs p ≡ true) here f))
    | inr f ↦
        elim (Bool-cases
          (not (has_suffix full (bytes ".js")) && exists_at fs (full ++ bytes ".js"))) [
            | inl g ↦
                (let here : full ++ bytes ".js" ≡ result = ground arith in
                  (
                    js_file-IsBelow fs rs rest result names k
                        (λ z. true-false (exists_at fs full) f (
                          ap (exists_at fs)
                            (same ∙ ap (λ l. from_root (rs ++ l)) z ∙ ap from_root (append-nil rs))
                          ∙ there))
                        (sym here ∙ ap (λ x. x ++ bytes ".js") same),
                    subst (λ p. exists_at fs p ≡ true) here (ground arith),
                  ))
            | inr g ↦ in_known_subdir-IsBelow c result known_subdirs subdirs-Known u (ground arith)
          ]
  ]

  -- A path that is resolved names something that exists below the project, where the path does not begin
  -- with `..` when it is cleaned. The project's directory is a path from the root that exists.
  pub resolve_local_path-IsBelow :
      (path result : Text)
      → exists_at fs (from_root rs) ≡ true
      → has_prefix (clean_import path) (bytes "..") ≡ false
      → resolve_local_path fs (from_root rs) path ≡ accepted result
      → IsBelow rs result × (exists_at fs result ≡ true)
  unfolding resolve_local_path
  resolve_local_path-IsBelow path result there down e =
      (let full = join_path (from_root rs) (clean_import path) in
        let rel = rel_path (from_root rs) full in
        let (inside, found) = resolve_checks-accepted _ rel (to_lower (ext full)) _ result e in
        let (rest, k, same, short) = join_path-IsBelow rs (clean_import path) names inside in
        find_local-IsBelow full (clean_import path) result rest k same there
          (clean_import-NotUp path down) found)
