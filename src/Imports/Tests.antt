-- ===== src/Imports/Tests.antt =====
-- lsengine/internal/imports/import_processor.go: script blocks of a small project, and the theorems applied.
use lsengine_js.Base.{
  ℕ, take, leb, ◌≤◌, ◌≡◌, ◌≢◌, refl, true, false, none, some, List, [], ◌∷◌, arith, All,
  if◌then◌else◌, Text, bytes, text_eq, has_prefix, has_suffix, contains, lookup, insert, split,
  join_with, to_lower, trim_left, trim_right, trim_space, concat,
}
use lsengine_js.Paths.{
  drop_last, last?, go_up, clean_part, clean_parts, join_slash, from_root, clean, join_path,
  drop_empty, parts_of, up_from, strip_common, rel_path, ext_from, ext,
}
use lsengine_js.Paths.Clean.{IsName}
use lsengine_js.Security.{
  FileSystem, clean_import, in_subdir, is_allowed_directory, size_check, entry_point, locate,
  path_checks, validate_local_path, check_and_mark_visited, max_imports_per_file, max_import_depth,
}
use lsengine_js.Security.Content.{
  match_piece, match_here, match_string, blocked_by, validate_script_content, skip_while,
}
use lsengine_js.Security.Reading.{
  new_import_processor, read_local_file, join_three, in_known_subdir, find_local, resolve_checks,
  resolve_local_path,
}
use lsengine_js.Security.Reads.{IsFaithful}
use lsengine_js.Imports.{take_while, import_line, parse_import_specifiers}
use lsengine_js.Imports.Blocks.{
  already, whole, wants_all, wrap, check_content, load_new, load_unless, resolve_import, remote,
  loaded, import_one, process_line, process_lines, new_block, process_script_block, specifier_text,
  specifiers_text, imported_text, parts_text, block_text,
}
use lsengine_js.Imports.Sources.{fetched, loaded_count, IsUnique}
use lsengine_js.Imports.Limits.{process_script_block-IsLimited}
use lsengine_js.Imports.Tags.{
  plain, matched, replace_matches, page_text, import_block, process_imports, include_content,
  include_file, to_call_tag, process_to_call_tags, to_call_text, script_src_tag,
  process_script_src_ls, ready_text, script_src_text,
}
use lsengine_js.Imports.Pages.{
  AllReplaced, AdmittedBlock, SafeInclusion, process_imports-Admitted, process_tags-Safe,
}

paths : Unit {0}
unfolding drop_last last? go_up clean_part clean_parts join_slash from_root clean join_path
    drop_empty parts_of up_from strip_common rel_path ext_from ext split join_with to_lower
    trim_left trim_right trim_space has_prefix has_suffix contains text_eq lookup insert concat
paths = tt

program : Unit {0}
unfolding paths clean_import in_subdir is_allowed_directory size_check entry_point locate
    path_checks validate_local_path skip_while match_piece match_here match_string blocked_by
    validate_script_content read_local_file join_three in_known_subdir find_local resolve_checks
    resolve_local_path check_and_mark_visited take_while import_line parse_import_specifiers
    wants_all wrap check_content load_new load_unless resolve_import import_one process_line
    process_lines process_script_block specifier_text specifiers_text imported_text parts_text
    block_text replace_matches page_text import_block process_imports include_content include_file
    to_call_tag process_to_call_tags to_call_text script_src_tag process_script_src_ls ready_text
    script_src_text
program = tt

abbrev disk : FileSystem
unfolding text_eq
disk = record {
  stat = λ path.
      if text_eq path (bytes "/a/b")
      then some (record { is_dir = true; size = 0 })
      else if text_eq path (bytes "/a/b/lib/util.js")
      then some (record { is_dir = false; size = 11 })
      else none;
  read_file =
      λ path. if text_eq path (bytes "/a/b/lib/util.js") then some (bytes "import {x}\n") else none;
}

abbrev project : List Text
project = bytes "a" ∷ bytes "b" ∷ []

project-IsName : All IsName project
unfolding text_eq
project-IsName = ((refl, omega arith, refl, refl), ((refl, omega arith, refl, refl), tt))

project_there : disk.stat (from_root project) ≢ none
unfolding program
project_there e = ground arith

-- A block that imports a file twice, and one from elsewhere.
abbrev script : Text
script =
    bytes
      "import {all} from 'lib/util.js'\n import {x, y} from \"lib/util.js\";\nimport { z } from 'https://h/z.js'\nx(1)\n"

lines_are_imports :
    (import_line (bytes "import {x, y} from \"lib/util.js\" ; ")
      ≡ some (bytes "x, y", bytes "lib/util.js"))
    × (import_line (bytes "import x from 'lib/util.js'") ≡ none)
    × (parse_import_specifiers (bytes " x, ,y ") ≡ bytes "x" ∷ bytes "y" ∷ [])
unfolding program
lines_are_imports = (refl, refl, refl)

block_is_processed :
    ((process_script_block disk script (new_import_processor (bytes "/a/b"))).parts
      ≡ loaded (whole (bytes "lib/util.js") (bytes "import {x}\n"))
        ∷ loaded (already (bytes "lib/util.js"))
        ∷ remote (bytes "https://h/z.js")
        ∷ [])
    × ((process_script_block disk script (new_import_processor (bytes "/a/b"))).code_lines
        ≡ bytes "x(1)" ∷ [])
unfolding program
block_is_processed = (refl, refl)

tag_is_replaced :
    page_text
      (to_call_text (λ r. []))
      (process_to_call_tags
        (λ t. matched t ∷ plain (bytes ".") ∷ [])
        disk
        (bytes "lib/util")
        (bytes "/a/b")
        []).1
    ≡ bytes "<script>\n// Contenido incluido desde lib/util\nimport {x}\n\n</script>."
unfolding program
tag_is_replaced = refl

process_script_block-IsLimited_example :
    (loaded_count (process_script_block disk script (new_import_processor (bytes "/a/b"))).parts
      ≤ max_imports_per_file)
    × IsUnique
        (fetched (process_script_block disk script (new_import_processor (bytes "/a/b"))).parts)
    × ((process_script_block disk script (new_import_processor (bytes "/a/b"))).run.context.depth
        ≡ 0)
    × ((n : ℕ)
        → ((process_lines disk
              (take n (split b'\n' script))
              (new_block (new_import_processor (bytes "/a/b")))).run.context.depth
            ≡ 0)
          × (leb max_import_depth
                (process_lines disk
                  (take n (split b'\n' script))
                  (new_block (new_import_processor (bytes "/a/b")))).run.context.depth
              ≡ false))
process_script_block-IsLimited_example =
    process_script_block-IsLimited disk script (new_import_processor (bytes "/a/b"))

fresh-IsFaithful : IsFaithful disk (from_root project) (new_import_processor (from_root project))
unfolding lookup
fresh-IsFaithful = record { rooted = refl; cached = λ raw content h. absurd (ground arith) }

process_imports-Admitted_example :
    IsFaithful disk
      (from_root project)
      (process_imports
        (λ t. matched t ∷ [])
        disk
        script
        (new_import_processor (from_root project))).0.1
    × AllReplaced
        (AdmittedBlock disk project)
        (process_imports
          (λ t. matched t ∷ [])
          disk
          script
          (new_import_processor (from_root project))).1
process_imports-Admitted_example =
    process_imports-Admitted disk project (λ t. matched t ∷ []) script
      (new_import_processor (from_root project)) project-IsName project_there fresh-IsFaithful

process_tags-Safe_example :
    AllReplaced
      (λ r. SafeInclusion disk project r.0 r.1)
      (process_to_call_tags (λ t. matched t ∷ []) disk (bytes "lib/util") (from_root project) []).1
    × AllReplaced
        (λ r. SafeInclusion disk project r.0.0 r.1)
        (process_script_src_ls
          (λ t. matched (t, bytes "ls") ∷ [])
          disk
          (bytes "lib/util")
          (from_root project)
          []).1
unfolding program
process_tags-Safe_example =
    process_tags-Safe disk project (λ t. matched t ∷ []) (λ t. matched (t, bytes "ls") ∷ [])
      (bytes "lib/util") [] project-IsName refl
