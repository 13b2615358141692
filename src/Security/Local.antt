-- ===== src/Security/Local.antt =====
-- lsengine/internal/security/security.go, `ValidateLocalPath`: what an accepted path is.
use mathlib.Core.List.{append_assoc, append-nil}
use lsengine_js.Base.{
  ℕ, ◌≤◌, ◌≡◌, ◌≢◌, refl, sym, ◌∙◌, ap, subst, ◌⊎◌, Bool, true, false, not, ◌||◌, none, some, List,
  [], ◌∷◌, ◌++◌, arith, if◌then◌else◌, ltb, All, All-append, All-append_inv, Bool-cases,
  Option-cases, inl, inr, Text, bytes, text_eq, has_prefix, has_suffix, NotByte, to_lower,
}
use lsengine_js.Paths.{join_path, rel_path, ext, from_root}
use lsengine_js.Paths.Clean.{IsName}
use lsengine_js.Paths.Inside.{IsBelow, join_path-IsBelow, join_path-name, from_root-longer}
use lsengine_js.Security.Directories.{IsAllowedPlace, is_allowed_directory-IsAllowedPlace}
use lsengine_js.Security.{
  FileInfo, FileSystem, max_import_file_size, is_allowed_extension, Refusal, Verdict, accepted,
  refused, clean_import, leads_out, is_allowed_directory, size_check, plain_file, entry_point,
  locate, path_checks, validate_local_path,
}

-- A file of the disk that is not too large.
abbrev pub IsFile : FileSystem → Text → Type 0
IsFile fs path =
    (info : FileInfo) × (fs.stat path ≡ some info)
    × (info.is_dir ≡ false)
    × (info.size ≤ max_import_file_size)

last-cases {ℓ} :
    {A : Type ℓ} (xs : List A) → (xs ≡ []) ⊎ ((ys : List A) × (y : A) × (xs ≡ ys ++ (y ∷ [])))
last-cases [] = inl refl
last-cases (x ∷ xs) = elim (last-cases xs) [
  | inl e ↦ inr ([], x, ap (λ l. x ∷ l) e)
  | inr (ys, y, e) ↦ inr (x ∷ ys, y, ap (λ l. x ∷ l) e)
]

NotByte-append : (c : ℕ) (a b : Text) → NotByte c a → NotByte c b → NotByte c (a ++ b)
NotByte-append c a b h k = All-append (λ x. x ≢ c) a b h k

IsName-js : (p : Text) → IsName p → IsName (p ++ bytes ".js")
unfolding text_eq
IsName-js [] h = absurd (ground arith)
IsName-js (c ∷ []) h = (refl, (h.1.0, omega arith), ground arith, ground arith)
IsName-js (c ∷ d ∷ p) h =
    (refl, NotByte-append b'/' (c ∷ d ∷ p) (bytes ".js") h.1 (omega arith), ground arith, go p)
  where
    go : (q : Text) → text_eq (c ∷ d ∷ (q ++ bytes ".js")) (bytes "..") ≡ false
    go [] = ground arith
    go (e ∷ q) = ground arith

entry_names : All IsName (bytes "main.js" ∷ bytes "index.js" ∷ [])
unfolding text_eq
entry_names = ((refl, omega arith, refl, refl), ((refl, omega arith, refl, refl), tt))

pub four_checks :
    (a b c d : Bool) (ra rb rc rd : Refusal) (located : Verdict Text) (path : Text)
    → (if a
        then refused ra
        else if b
        then refused rb
        else if c
        then refused rc
        else if d
        then refused rd
        else located)
      ≡ accepted path
    → (b ≡ false) × (c ≡ false) × (d ≡ false) × (located ≡ accepted path)
four_checks a b c d ra rb rc rd located path e = ground arith

false-not : (b : Bool) → not b ≡ false → b ≡ true
false-not b h = ground arith

pub false_left : (a b : Bool) → a || b ≡ false → a ≡ false
false_left a b h = ground arith

path_checks-accepted :
    (is_remote : Bool) (rel extension : Text) (located : Verdict Text) (path : Text)
    → path_checks is_remote rel extension located ≡ accepted path
    → (has_prefix rel (bytes "..") ≡ false)
      × (is_allowed_extension extension ≡ true)
      × (is_allowed_directory rel ≡ true)
      × (located ≡ accepted path)
unfolding path_checks
path_checks-accepted is_remote rel extension located path e =
    (let (inside, known, listed, there) =
        four_checks is_remote (leads_out rel) (not (is_allowed_extension extension))
          (not (is_allowed_directory rel)) _ _ _ _ located path e in
      (false_left _ _ inside, false-not _ known, false-not _ listed, there))

-- What an accepted path comes from: the path below the directory that was checked.
abbrev pub IsImportable : List Text → List Text → Type 0
IsImportable rs rest =
    All IsName rest
    × (is_allowed_extension (to_lower (ext (from_root (rs ++ rest)))) ≡ true)
    × IsAllowedPlace rest

module _ (fs : FileSystem) where
  size_check-IsFile :
      (path result : Text) (info : FileInfo)
      → fs.stat path ≡ some info
      → info.is_dir ≡ false
      → size_check path info ≡ accepted result
      → (result ≡ path) × IsFile fs path
  unfolding size_check
  size_check-IsFile path result info s d h =
      elim (Bool-cases (ltb max_import_file_size info.size)) [
        | inl e ↦ absurd (ground arith)
        | inr e ↦ (ground arith, (info, s, d, ground arith))
      ]

  plain_file-stat :
      (path : Text) (info : FileInfo)
      → plain_file fs path ≡ some info
      → (fs.stat path ≡ some info) × (info.is_dir ≡ false)
  plain_file-stat path info h = elim (Option-cases (fs.stat path)) [
    | inl e ↦ absurd (ground arith)
    | inr (found, e) ↦ ground arith
  ]

  entry_point-IsFile :
      (xs candidates : List Text) (result : Text)
      → All IsName xs
      → All IsName candidates
      → entry_point fs (from_root xs) candidates ≡ accepted result
      → (c : Text) × IsName c × (result ≡ from_root (xs ++ (c ∷ []))) × IsFile fs result
  unfolding entry_point
  entry_point-IsFile xs [] result h k e = absurd (ground arith)
  entry_point-IsFile xs (c ∷ candidates) result h k e =
      elim (Option-cases (plain_file fs (join_path (from_root xs) c))) [
        | inl f ↦ entry_point-IsFile xs candidates result h k.1 (ground arith)
        | inr (info, f) ↦
            (let there = plain_file-stat (join_path (from_root xs) c) info f in
              let checked =
                size_check-IsFile (join_path (from_root xs) c) result info there.0 there.1
                  (ground arith) in
              (
                c,
                k.0,
                checked.0 ∙ join_path-name xs c h k.0,
                subst (IsFile fs) (sym checked.0) checked.1,
              ))
      ]

  -- The file that stands for a name without its `.js`.
  pub js_file-IsBelow :
      (rs rest : List Text) (result : Text)
      → All IsName rs
      → All IsName rest
      → rest ≢ []
      → result ≡ from_root (rs ++ rest) ++ bytes ".js"
      → IsBelow rs result
  js_file-IsBelow rs rest result h k ne e = elim (last-cases rest) [
    | inl f ↦ absurd (ne f)
    | inr (ys, y, f) ↦
        (let (kys, ky) = All-append_inv IsName ys (y ∷ []) (subst (All IsName) f k) in
          (
            ys ++ ((y ++ bytes ".js") ∷ []),
            All-append IsName ys ((y ++ bytes ".js") ∷ []) kys (IsName-js y ky.0, tt),
            e
                ∙ ap (λ l. from_root (rs ++ l) ++ bytes ".js") f
                ∙ ap (λ l. from_root l ++ bytes ".js") (sym (append_assoc rs ys (y ∷ [])))
                ∙ from_root-longer (rs ++ ys) y (bytes ".js")
                ∙ ap from_root (append_assoc rs ys ((y ++ bytes ".js") ∷ [])),
          ))
  ]

  -- What is located for a path below the directory is a file below it.
  locate-IsBelow :
      (rs rest : List Text) (full result : Text)
      → All IsName rs
      → All IsName rest
      → fs.stat (from_root rs) ≢ none
      → full ≡ from_root (rs ++ rest)
      → locate fs full ≡ accepted result
      → IsBelow rs result × IsFile fs result
  unfolding locate
  locate-IsBelow rs rest full result h k there same e = elim (Option-cases (fs.stat full)) [
    | inl f ↦ elim (Bool-cases (has_suffix full (bytes ".js"))) [
      | inl g ↦ absurd (ground arith)
      | inr g ↦ elim (Option-cases (plain_file fs (full ++ bytes ".js"))) [
        | inl m ↦ absurd (ground arith)
        | inr (info, m) ↦
            (let found = plain_file-stat (full ++ bytes ".js") info m in
              let checked =
                size_check-IsFile (full ++ bytes ".js") result info found.0 found.1
                  (ground arith) in
              let below =
                js_file-IsBelow rs rest result h k
                  (λ z. there (
                    sym (
                      ap fs.stat
                        (same ∙ ap (λ l. from_root (rs ++ l)) z ∙ ap from_root (append-nil rs)))
                    ∙ f))
                  (checked.0 ∙ ap (λ x. x ++ bytes ".js") same) in
              (below, subst (IsFile fs) (sym checked.0) checked.1))
      ]
    ]
    | inr (info, f) ↦ elim (Bool-cases info.is_dir) [
      | inl g ↦
          (let candidates = bytes "main.js" ∷ bytes "index.js" ∷ [] in
            let (c, n, at_end, file) =
              entry_point-IsFile (rs ++ rest) candidates result (All-append IsName rs rest h k)
                entry_names
                (subst (λ x. entry_point fs x candidates ≡ accepted result) same (ground arith)) in
            (
              (
                rest ++ (c ∷ []),
                All-append IsName rest (c ∷ []) k (n, tt),
                at_end ∙ ap from_root (append_assoc rs rest (c ∷ [])),
              ),
              file,
            ))
      | inr g ↦
          (let checked = size_check-IsFile full result info f g (ground arith) in
            ((rest, k, checked.0 ∙ same), subst (IsFile fs) (sym checked.0) checked.1))
    ]
  ]

  -- A path that is accepted names a file below the project, of at most a megabyte: the file, the file with
  -- `.js` after it, or the entry point of the directory, at a place below the project whose extension is
  -- allowed and which stands in the project's directory itself, or whose first directory is in the built-in
  -- list of the security policy: js, public, modules, scripts, src, lib, components. The project's directory is
  -- a path from the root that exists.
  pub validate_local_path-IsBelow :
      (rs : List Text) (raw path : Text)
      → All IsName rs
      → fs.stat (from_root rs) ≢ none
      → validate_local_path fs (from_root rs) raw ≡ accepted path
      → IsBelow rs path
        × IsFile fs path
        × ((rest : List Text) × IsImportable rs rest
            × (locate fs (from_root (rs ++ rest)) ≡ accepted path))
  unfolding validate_local_path
  validate_local_path-IsBelow rs raw path h there e =
      (let full = join_path (from_root rs) (clean_import raw) in
        let rel = rel_path (from_root rs) full in
        let (inside, extension, directory, located) =
          path_checks-accepted _ rel (to_lower (ext full)) (locate fs full) path e in
        let (rest, names, same, short) = join_path-IsBelow rs (clean_import raw) h inside in
        let (below, file) = locate-IsBelow rs rest full path h names there same located in
        (
          below,
          file,
          (
            rest,
            (
              names,
              subst (λ x. is_allowed_extension (to_lower (ext x)) ≡ true) same extension,
              is_allowed_directory-IsAllowedPlace rest names
                  (subst (λ x. is_allowed_directory x ≡ true) short directory),
            ),
            subst (λ x. locate fs x ≡ accepted path) same located,
          ),
        ))
