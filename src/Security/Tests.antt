-- ===== src/Security/Tests.antt =====
-- lsengine/internal/security/security.go: a small project on disk, and the theorems applied.
use lsengine_js.Base.{
  ◌≤◌, ◌≡◌, ◌≢◌, refl, ◌⊎◌, true, false, none, some, Option, List, [], ◌∷◌, ◌++◌, arith, All,
  length, Text, bytes, text_eq, has_prefix, has_suffix, contains, lookup, insert, split, join_with,
  to_lower, trim_left, trim_right, trim_space,
}
use lsengine_js.Paths.{
  drop_last, last?, go_up, clean_part, clean_parts, join_slash, from_root, clean, join_path,
  drop_empty, parts_of, up_from, strip_common, rel_path, ext_from, ext,
}
use lsengine_js.Paths.Clean.{IsName}
use lsengine_js.Paths.Inside.{IsBelow}
use lsengine_js.Security.{
  FileSystem, remote_import, path_traversal, forbidden_extension, forbidden_directory,
  blocked_pattern, accepted, refused, max_script_code_size, clean_import, in_subdir,
  is_allowed_directory, size_check, entry_point, locate, path_checks, validate_local_path,
}
use lsengine_js.Security.Content.{
  is_blank, skip_while, match_piece, match_here, match_string, blocked_by, validate_script_content,
}
use lsengine_js.Security.Reading.{
  new_import_processor, read_local_file, join_three, in_known_subdir, exists_at, find_local,
  resolve_checks, resolve_local_path,
}
use lsengine_js.Security.Local.{IsFile, IsImportable, validate_local_path-IsBelow}
use lsengine_js.Security.Patterns.{validate_script_content-call}
use lsengine_js.Security.Resolve.{resolve_local_path-IsBelow}
use lsengine_js.Security.Reads.{IsFaithful, read_local_file-IsFaithful}

paths : Unit {0}
unfolding drop_last last? go_up clean_part clean_parts join_slash from_root clean join_path
    drop_empty parts_of up_from strip_common rel_path ext_from ext split join_with to_lower
    trim_left trim_right trim_space has_prefix has_suffix contains text_eq lookup insert
paths = tt

program : Unit {0}
unfolding paths clean_import in_subdir is_allowed_directory size_check entry_point locate
    path_checks validate_local_path skip_while match_piece match_here match_string blocked_by
    validate_script_content read_local_file join_three in_known_subdir find_local resolve_checks
    resolve_local_path
program = tt

abbrev files : List (Text × Option Text)
files =
    (bytes "/a/b", none)
    ∷ (bytes "/a/b/lib/util.js", some (bytes "x = 1"))
    ∷ (bytes "/a/a/b/x.js", some (bytes "y = 2"))
    ∷ []

abbrev disk : FileSystem
unfolding lookup
disk = record {
  stat = λ path. elim (lookup path files) [
    | none ↦ none
    | some none ↦ some (record { is_dir = true; size = 0 })
    | some (some content) ↦ some (record { is_dir = false; size = length content })
  ];
  read_file = λ path. elim (lookup path files) [ none ↦ none | some content ↦ content ];
}

abbrev project : List Text
project = bytes "a" ∷ bytes "b" ∷ []

project-IsName : All IsName project
unfolding text_eq
project-IsName = ((refl, omega arith, refl, refl), ((refl, omega arith, refl, refl), tt))

project_there : disk.stat (from_root project) ≢ none
unfolding program
project_there e = ground arith

-- The checks in turn. A name without its extension is refused, although there is a file of that name with `.js`.
imports_are_checked :
    (validate_local_path disk (bytes "/a/b") (bytes "lib/./x/../util.js")
      ≡ accepted (bytes "/a/b/lib/util.js"))
    × (validate_local_path disk (bytes "/a/b") (bytes " HTTP://h/util.js") ≡ refused remote_import)
    × (validate_local_path disk (bytes "/a/b") (bytes "../../etc/x.js") ≡ refused path_traversal)
    × (validate_local_path disk (bytes "/a/b") (bytes "lib/util")
        ≡ refused (forbidden_extension []))
    × (validate_local_path disk (bytes "/a/b") (bytes "data/x.json")
        ≡ refused (forbidden_directory (bytes "data/x.json")))
unfolding program
imports_are_checked = (refl, refl, refl, refl, refl)

-- A path that leaves the project and comes back leads out of it through one of the directories that are tried.
a_path_escapes :
    resolve_local_path disk (bytes "/a/b") (bytes "../../a/b/x.js") ≡ accepted (bytes "/a/a/b/x.js")
unfolding program
a_path_escapes = refl

scripts_are_checked :
    (validate_script_content (bytes "let a = EVAL  (b)") ≡ some (blocked_pattern 0))
    × (validate_script_content (bytes "setTimeout( 'f()' , 10 )") ≡ some (blocked_pattern 2))
    × (validate_script_content (bytes "setTimeout(f, 10); evaluate(1)") ≡ none)
unfolding program
scripts_are_checked = (refl, refl, refl)

-- A vertical tab or a comment before the parenthesis hides a call.
calls_are_hidden :
    (validate_script_content (bytes "eval" ++ (11 ∷ bytes "(1)")) ≡ none)
    × (validate_script_content (bytes "eval/**/(1)") ≡ none)
unfolding program
calls_are_hidden = (refl, refl)

validate_local_path-IsBelow_example :
    IsBelow project (bytes "/a/b/lib/util.js")
    × IsFile disk (bytes "/a/b/lib/util.js")
    × ((rest : List Text) × IsImportable project rest
        × (locate disk (from_root (project ++ rest)) ≡ accepted (bytes "/a/b/lib/util.js")))
unfolding program
validate_local_path-IsBelow_example =
    validate_local_path-IsBelow disk project (bytes "lib/util.js") (bytes "/a/b/lib/util.js")
      project-IsName project_there refl

resolve_local_path-IsBelow_example :
    IsBelow project (bytes "/a/b/lib/util.js") × (exists_at disk (bytes "/a/b/lib/util.js") ≡ true)
unfolding program
resolve_local_path-IsBelow_example =
    resolve_local_path-IsBelow disk project project-IsName (bytes "lib/util")
      (bytes "/a/b/lib/util.js") refl refl refl

validate_script_content-call_example :
    (length (bytes "evaluate(1)") ≤ max_script_code_size)
    × ((before word ws after : Text)
        → All (λ c. is_blank c ≡ true) ws
        → (to_lower word ≡ bytes "eval") ⊎ (to_lower word ≡ bytes "document.write")
        → bytes "evaluate(1)" ≢ before ++ (word ++ (ws ++ (b'(' ∷ after))))
unfolding program
validate_script_content-call_example = validate_script_content-call (bytes "evaluate(1)") refl

fresh-IsFaithful : IsFaithful disk (from_root project) (new_import_processor (from_root project))
unfolding lookup
fresh-IsFaithful = record { rooted = refl; cached = λ raw content h. absurd (ground arith) }

read_local_file-IsFaithful_example :
    IsFaithful disk
      (from_root project)
      (read_local_file disk (bytes "lib/util.js") (new_import_processor (from_root project))).0
    × ((content : Text)
        → (read_local_file disk (bytes "lib/util.js") (new_import_processor (from_root project))).1
          ≡ accepted content
        → (path : Text) × IsBelow project path
          × IsFile disk path
          × (disk.read_file path ≡ some content))
read_local_file-IsFaithful_example =
    read_local_file-IsFaithful disk project (bytes "lib/util.js")
      (new_import_processor (from_root project)) project-IsName project_there fresh-IsFaithful
