-- ===== src/Imports/Tags.antt =====
-- lsengine/internal/imports/import_processor.go: `ProcessImports`, `ProcessToCallTags` and
-- `ProcessScriptSrcLS`. The patterns that find a tag in a page are arguments: they take the page apart, and
-- give the groups of each match.
use lsengine_js.Base.{
  ℕ, ◌+◌, Option, none, some, List, [], ◌∷◌, ◌++◌, if◌then◌else◌, ltb, Text, bytes, text_eq,
  to_lower, concat,
}
use lsengine_js.Security.{
  FileSystem, max_imports_per_file, Refusal, Verdict, accepted, refused, any_prefix,
}
use lsengine_js.Security.Content.{validate_script_content}
use lsengine_js.Security.Reading.{
  ImportProcessor, count_violation, resolve_schemes, resolve_local_path,
}
use lsengine_js.Imports.Blocks.{BlockRun, Part, process_script_block, block_text}

-- A page, taken apart: what lies between the matches, and the matches.
pub data Segment (G : Type 0) : Type 0 where
  plain : Text → Segment G
  matched : G → Segment G

-- `ReplaceAllStringFunc`, with the state that the function changes
unfoldable pub replace_matches :
    {G S T : Type 0} → (G → S → S × T) → List (Segment G) → S → S × List (Segment T)
replace_matches f [] s = (s, [])
replace_matches f (plain t ∷ page) s =
    (let rest = replace_matches f page s in (rest.0, plain t ∷ rest.1))
replace_matches f (matched g ∷ page) s =
    (let new = f g s in let rest = replace_matches f page new.0 in (rest.0, matched new.1 ∷ rest.1))

unfoldable pub page_text : {T : Type 0} → (T → Text) → List (Segment T) → Text
page_text text [] = []
page_text text (plain t ∷ page) = t ++ page_text text page
page_text text (matched r ∷ page) = text r ++ page_text text page

-- What takes the place of a script block.
pub data PageBlock : Type 0 where
  too_many : PageBlock
  block : BlockRun → PageBlock

unfoldable pub import_block :
    FileSystem → Text → ℕ × ImportProcessor → (ℕ × ImportProcessor) × PageBlock
unfolding process_script_block
import_block fs content (counter, p) =
    let run = process_script_block fs content p in
    if ltb max_imports_per_file (counter + 1)
    then ((counter + 1, count_violation (bytes "too_many_imports" ∷ []) p), too_many)
    else ((counter + 1, run.run.processor), block run)

-- `script_re` finds the script blocks with an import.
unfoldable pub process_imports :
    (script_re : Text → List (Segment Text))
    → FileSystem
    → Text
    → ImportProcessor
    → (ℕ × ImportProcessor) × List (Segment PageBlock)
unfolding replace_matches import_block
process_imports script_re fs html p = replace_matches (import_block fs) (script_re html) (0, p)

unfoldable pub page_block_text : (Part → Text) → PageBlock → Text
unfolding block_text
page_block_text part_text too_many = bytes "<!-- BLOQUEADO: demasiados imports en este archivo -->"
page_block_text part_text (block b) = block_text part_text b

-- What takes the place of a tag that names a file.
pub data Inclusion : Type 0 where
  remote_tag : Inclusion
  refused_tag : Refusal → Inclusion
  unreadable : Inclusion
  dangerous : Inclusion
  included : Text → Inclusion

-- `os.ReadFile`, `ValidateScriptContent` and the end of either function; the state is what was counted.
unfoldable pub include_content : Text → Option Text → List Text → List Text × Inclusion
unfolding validate_script_content
include_content kind none blocked = (blocked, unreadable)
include_content kind (some content) blocked = elim (validate_script_content content) [
  | some r ↦ (blocked ++ (kind ∷ []), dangerous)
  | none ↦ (blocked, included content)
]

abbrev pub include_resolved : FileSystem → Text → Verdict Text → List Text → List Text × Inclusion
include_resolved fs kind (refused r) blocked = (blocked, refused_tag r)
include_resolved fs kind (accepted full) blocked = include_content kind (fs.read_file full) blocked

-- The kinds are what `metrics.IncSecurityBlocked` is called with.
unfoldable pub include_file :
    FileSystem → Text → Text → Text → Text → List Text → List Text × Inclusion
unfolding include_content resolve_local_path to_lower
include_file fs root remote_kind content_kind path blocked =
    if any_prefix (to_lower path) resolve_schemes
    then (blocked ++ (remote_kind ∷ []), remote_tag)
    else include_resolved fs content_kind (resolve_local_path fs root path) blocked

unfoldable pub to_call_tag : FileSystem → Text → Text → List Text → List Text × (Text × Inclusion)
unfolding include_file
to_call_tag fs root path blocked =
    let new =
      include_file fs root (bytes "remote_to_call") (bytes "blocked_content_to_call") path
        blocked in
    (new.0, (path, new.1))

unfoldable pub process_to_call_tags :
    (re : Text → List (Segment Text))
    → FileSystem
    → Text
    → Text
    → List Text
    → List Text × List (Segment (Text × Inclusion))
unfolding replace_matches to_call_tag
process_to_call_tags re fs content root blocked =
    replace_matches (to_call_tag fs root) (re content) blocked

-- `error_text` is the message of an error.
unfoldable pub to_call_text : (error_text : Refusal → Text) → Text × Inclusion → Text
unfolding concat
to_call_text error_text (path, remote_tag) =
    concat (bytes "<!-- BLOQUEADO: to-call remoto no permitido (" ∷ path ∷ bytes ") -->" ∷ [])
to_call_text error_text (path, refused_tag r) =
    concat (bytes "<!-- Error: " ∷ error_text r ∷ bytes " -->" ∷ [])
to_call_text error_text (path, unreadable) =
    concat (bytes "<!-- Error: no se pudo cargar " ∷ path ∷ bytes " -->" ∷ [])
to_call_text error_text (path, dangerous) =
    concat (bytes "<!-- BLOQUEADO: contenido peligroso en " ∷ path ∷ bytes " -->" ∷ [])
to_call_text error_text (path, included content) = concat (
    bytes "<script>\n// Contenido incluido desde "
    ∷ path
    ∷ bytes "\n"
    ∷ content
    ∷ bytes "\n</script>"
    ∷ [])

-- The path and the variant of a tag are the second and the fourth group of the match.
unfoldable pub script_src_tag :
    FileSystem → Text → Text × Text → List Text → List Text × ((Text × Text) × Inclusion)
unfolding include_file to_lower
script_src_tag fs root (path, variant) blocked =
    let new =
      include_file fs root (bytes "remote_script_src_ls") (bytes "script_content_blocked") path
        blocked in
    (new.0, ((path, to_lower variant), new.1))

unfoldable pub process_script_src_ls :
    (re : Text → List (Segment (Text × Text)))
    → FileSystem
    → Text
    → Text
    → List Text
    → List Text × List (Segment ((Text × Text) × Inclusion))
unfolding replace_matches script_src_tag
process_script_src_ls re fs html root blocked =
    replace_matches (script_src_tag fs root) (re html) blocked

-- The script of an `ls-ws` tag waits until the client's library is there.
unfoldable pub ready_text : Text → Text → Text
unfolding concat
ready_text path content = concat (
    bytes "<script>\n// ls-ws: "
    ∷ path
    ∷ bytes
        "\n(function() {\n  function _runWhenReady(fn) {\n    if (typeof ls !== 'undefined' && typeof ls.fs !== 'undefined') {\n      fn();\n    } else {\n"
    ∷ bytes
        "      var _check = setInterval(function() {\n        if (typeof ls !== 'undefined' && typeof ls.fs !== 'undefined') {\n          clearInterval(_check);\n          fn();\n        }\n      }, 50);\n    }\n  }\n"
    ∷ bytes "  _runWhenReady(function() {\n"
    ∷ content
    ∷ bytes "\n  });\n})();\n</script>"
    ∷ [])

unfoldable pub script_src_text : (error_text : Refusal → Text) → (Text × Text) × Inclusion → Text
unfolding concat ready_text text_eq
script_src_text error_text ((path, variant), remote_tag) =
    concat (bytes "<!-- BLOQUEADO: script-ls remoto no permitido (" ∷ path ∷ bytes ") -->" ∷ [])
script_src_text error_text ((path, variant), refused_tag r) =
    concat (
      bytes "<!-- Error cargando ls-script " ∷ path ∷ bytes ": " ∷ error_text r ∷ bytes " -->" ∷ [])
script_src_text error_text ((path, variant), unreadable) =
    concat (bytes "<!-- Error leyendo ls-script " ∷ path ∷ bytes " -->" ∷ [])
script_src_text error_text ((path, variant), dangerous) =
    concat (bytes "<!-- BLOQUEADO: contenido peligroso en " ∷ path ∷ bytes " -->" ∷ [])
script_src_text error_text ((path, variant), included content) =
    if text_eq variant (bytes "ls-ws")
    then ready_text path content
    else concat
        (bytes "<script>\n// ls-script: " ∷ path ∷ bytes "\n" ∷ content ∷ bytes "\n</script>" ∷ [])
