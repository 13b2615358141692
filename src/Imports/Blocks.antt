-- ===== src/Imports/Blocks.antt =====
-- lsengine/internal/imports/import_processor.go: `resolveImport` and `processScriptBlock`.
use lsengine_js.Base.{
  ℕ, Bool, true, false, ◌||◌, none, some, List, [], ◌∷◌, ◌++◌, if◌then◌else◌, ltb, leb, Text, bytes,
  text_eq, is_empty, concat, split, join_with, trim_space, to_lower,
}
use lsengine_js.Security.{
  FileSystem, ImportContext, new_import_context, max_imports_per_file, max_import_depth,
  check_and_mark_visited, increment_count, increment_depth, decrement_depth, Refusal, depth_reached,
  violation, Verdict, accepted, refused, any_prefix,
}
use lsengine_js.Security.Content.{validate_script_content}
use lsengine_js.Security.Reading.{
  ImportProcessor, count_violation, read_local_file, resolve_schemes,
}
use lsengine_js.Imports.{import_line, parse_import_specifiers}

-- What an import becomes: a note, a whole file, or the named parts of a file.
pub data Imported : Type 0 where
  already : Text → Imported
  whole : Text → Text → Imported
  named : Text → List Text → Text → Imported

pub record ImportRun : Type 0 where
  pub processor : ImportProcessor
  pub context : ImportContext

unfoldable pub wants_all : List Text → Bool
wants_all [] = false
wants_all (s ∷ specifiers) =
    text_eq s (bytes "all") || text_eq s (bytes "*") || wants_all specifiers

unfoldable pub wrap : Text → List Text → Text → Imported
unfolding wants_all
wrap source specifiers content =
    if wants_all specifiers then whole source content else named source specifiers content

-- `ValidateScriptContent` of the content that was read, and its wrapping
unfoldable pub check_content : Text → List Text → Text → ImportRun → ImportRun × Verdict Imported
unfolding wrap validate_script_content
check_content source specifiers content run = elim (validate_script_content content) [
  | some r ↦ (record run { processor = count_violation (violation r) run.processor }, refused r)
  | none ↦ (run, accepted (wrap source specifiers content))
]

abbrev pub load_content :
    Text → List Text → ImportContext → ImportProcessor × Verdict Text → ImportRun × Verdict Imported
load_content source specifiers context (p, refused r) =
    (record { processor = p; context = context }, refused r)
load_content source specifiers context (p, accepted content) =
    check_content source specifiers content (record { processor = p; context = context })

-- The import of a source that was not visited: the depth is raised, and lowered again at the end.
unfoldable pub load_new :
    FileSystem → Text → List Text → ImportContext → ImportProcessor → ImportRun × Verdict Imported
unfolding check_content read_local_file
load_new fs source specifiers context p =
    load_content source specifiers (decrement_depth (increment_depth context))
      (read_local_file fs source p)

unfoldable pub load_unless :
    FileSystem
    → Text
    → List Text
    → ImportProcessor
    → Bool × ImportContext
    → ImportRun × Verdict Imported
unfolding load_new
load_unless fs source specifiers p (true, context) =
    (record { processor = p; context = context }, accepted (already source))
load_unless fs source specifiers p (false, context) = load_new fs source specifiers context p

unfoldable pub resolve_import :
    FileSystem → Text → List Text → ImportRun → ImportRun × Verdict Imported
unfolding load_unless check_and_mark_visited
resolve_import fs source specifiers run =
    if leb max_import_depth run.context.depth
    then (run, refused depth_reached)
    else load_unless fs source specifiers run.processor (check_and_mark_visited source run.context)

-- What is put in place of an import.
pub data Part : Type 0 where
  over_limit : ℕ → Part
  remote : Text → Part
  failed : Text → Refusal → Part
  loaded : Imported → Part

pub record BlockRun : Type 0 where
  pub run : ImportRun
  pub parts : List Part
  pub code_lines : List Text

abbrev pub add_part : Part → ImportRun → BlockRun → BlockRun
add_part part run b = record b { run = run; parts = b.parts ++ (part ∷ []) }

abbrev pub part_of : Text → Verdict Imported → Part
part_of source (refused r) = failed source r
part_of source (accepted i) = loaded i

-- the branch of a line that is an import
unfoldable pub import_one : FileSystem → Text → Text → BlockRun → BlockRun
unfolding resolve_import parse_import_specifiers to_lower trim_space
import_one fs names path b =
    let source = trim_space path in
    let counted = record b.run { context = increment_count b.run.context } in
    let result = resolve_import fs source (parse_import_specifiers names) counted in
    if ltb max_imports_per_file counted.context.import_count
    then add_part (over_limit counted.context.import_count) counted b
    else if any_prefix (to_lower source) resolve_schemes
    then add_part (remote source)
        (record counted {
          processor = count_violation (bytes "remote_import_attempt" ∷ []) counted.processor;
        })
        b
    else add_part (part_of source result.1) result.0 b

-- one round of the loop over the lines
unfoldable pub process_line : FileSystem → Text → BlockRun → BlockRun
unfolding import_one import_line trim_space
process_line fs line b =
    if is_empty (trim_space line) then b else elim (import_line (trim_space line)) [
      | some (names, path) ↦ import_one fs names path b
      | none ↦ record b { code_lines = b.code_lines ++ (line ∷ []) }
    ]

unfoldable pub process_lines : FileSystem → List Text → BlockRun → BlockRun
unfolding process_line
process_lines fs [] b = b
process_lines fs (line ∷ lines) b = process_lines fs lines (process_line fs line b)

abbrev pub new_block : ImportProcessor → BlockRun
new_block p = record {
  run = record { processor = p; context = new_import_context };
  parts = [];
  code_lines = [];
}

unfoldable pub process_script_block : FileSystem → Text → ImportProcessor → BlockRun
unfolding process_lines split
process_script_block fs content p = process_lines fs (split b'\n' content) (new_block p)

-- The three lines that hand one name out of a file.
unfoldable pub specifier_text : Text → Text
unfolding concat
specifier_text s = concat (
    bytes "  if (typeof module.exports['"
    ∷ s
    ∷ bytes "'] !== 'undefined') { window['"
    ∷ s
    ∷ bytes "'] = module.exports['"
    ∷ s
    ∷ bytes "']; }\n  else if (typeof exports['"
    ∷ s
    ∷ bytes "'] !== 'undefined') { window['"
    ∷ s
    ∷ bytes "'] = exports['"
    ∷ s
    ∷ bytes "']; }\n  else if (typeof "
    ∷ s
    ∷ bytes " !== 'undefined') { window['"
    ∷ s
    ∷ bytes "'] = "
    ∷ s
    ∷ bytes "; }\n"
    ∷ [])

unfoldable pub specifiers_text : List Text → Text
unfolding specifier_text trim_space
specifiers_text [] = []
specifiers_text (s ∷ specifiers) =
    if is_empty (trim_space s)
    then specifiers_text specifiers
    else specifier_text (trim_space s) ++ specifiers_text specifiers

unfoldable pub imported_text : Imported → Text
unfolding join_with specifiers_text concat
imported_text (already source) = concat (bytes "// (ya importado: " ∷ source ∷ bytes ")" ∷ [])
imported_text (whole source content) = concat (
    bytes "// === import {all} from \""
    ∷ source
    ∷ bytes "\" ===\n"
    ∷ content
    ∷ bytes "\n// === fin import {all} ==="
    ∷ [])
imported_text (named source specifiers content) = concat (
    bytes "// === import {"
    ∷ join_with (bytes ", ") specifiers
    ∷ bytes "} from \""
    ∷ source
    ∷ bytes "\" ===\n"
    ∷ bytes "(function() {\n  var module = { exports: {} };\n  var exports = module.exports;\n"
    ∷ content
    ∷ bytes "\n"
    ∷ specifiers_text specifiers
    ∷ bytes "})();\n// === fin import {"
    ∷ join_with (bytes ", ") specifiers
    ∷ bytes "} ==="
    ∷ [])

unfoldable pub parts_text : (Part → Text) → List Part → Text
parts_text part_text [] = []
parts_text part_text (p ∷ parts) = part_text p ++ (bytes "\n" ++ parts_text part_text parts)

-- `// --- código del bloque script ---`, in UTF-8
abbrev code_note : Text
code_note = bytes "// --- c" ++ (195 ∷ 179 ∷ bytes "digo del bloque script ---\n")

-- The script that takes the place of the block; `part_text` is the text of a part, with its message.
unfoldable pub block_text : (Part → Text) → BlockRun → Text
unfolding join_with trim_space concat parts_text
block_text part_text b =
    let user_code = trim_space (join_with (bytes "\n") b.code_lines) in
    let code =
      if is_empty user_code
      then []
      else concat (code_note ∷ bytes "(function() {\n" ∷ user_code ∷ bytes "\n})();\n" ∷ []) in
    concat (bytes "<script>\n" ∷ parts_text part_text b.parts ∷ code ∷ bytes "</script>" ∷ [])
