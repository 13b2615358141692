-- ===== src/Security.antt =====
-- lsengine/internal/security/security.go: which files a script may import, and which scripts are refused. The
-- file system is an argument; texts are ASCII.
pub mod Content
pub mod Patterns
pub mod Reading
mod Directories
pub mod Local
mod Trim
pub mod Resolve
pub mod Reads
mod Tests
use lsengine_js.Base.{
  ℕ, zero, suc, ◌+◌, ◌-◌, ◌*◌, Bool, true, false, not, ◌&&◌, ◌||◌, Option, none, some, List, [],
  ◌∷◌, ◌++◌, if◌then◌else◌, ◌==◌, leb, ltb, length, Text, bytes, text_eq, has_prefix, has_suffix,
  contains, to_lower, trim_space, split, lookup, insert,
}
use lsengine_js.Paths.{clean, join_path, rel_path, ext}

pub record FileInfo : Type 0 where
  pub is_dir : Bool
  pub size : ℕ

-- `os.Stat` and `os.ReadFile`; `none` is an error.
pub record FileSystem : Type 0 where
  pub stat : Text → Option FileInfo
  pub read_file : Text → Option Text

abbrev pub max_import_file_size : ℕ
max_import_file_size = 1 * 1024 * 1024

abbrev pub max_imports_per_file : ℕ
max_imports_per_file = 50

abbrev pub max_import_depth : ℕ
max_import_depth = 5

abbrev pub max_script_code_size : ℕ
max_script_code_size = 512 * 1024

abbrev pub is_allowed_extension : Text → Bool
is_allowed_extension e =
    text_eq e (bytes ".js") || text_eq e (bytes ".mjs") || text_eq e (bytes ".json")

abbrev pub allowed_subdirs : List Text
allowed_subdirs =
    bytes "js"
    ∷ bytes "public"
    ∷ bytes "public/js"
    ∷ bytes "modules"
    ∷ bytes "scripts"
    ∷ bytes "src"
    ∷ bytes "lib"
    ∷ bytes "components"
    ∷ []

-- `NewImportContext`, with the file's name for its lock left out: each method is atomic.
pub record ImportContext : Type 0 where
  pub depth : ℕ
  pub visited : List Text
  pub import_count : ℕ

abbrev pub new_import_context : ImportContext
new_import_context = record { depth = 0; visited = []; import_count = 0 }

abbrev pub increment_count : ImportContext → ImportContext
increment_count c = record c { import_count = c.import_count + 1 }

abbrev pub is_listed : Text → List Text → Bool
is_listed key [] = false
is_listed key (k ∷ keys) = text_eq k key || is_listed key keys

-- Whether the key was visited, and the context in which it is.
unfoldable pub check_and_mark_visited : Text → ImportContext → Bool × ImportContext
check_and_mark_visited key c =
    if is_listed key c.visited then (true, c) else (false, record c { visited = key ∷ c.visited })

abbrev pub increment_depth : ImportContext → ImportContext
increment_depth c = record c { depth = c.depth + 1 }

abbrev pub decrement_depth : ImportContext → ImportContext
decrement_depth c = record c { depth = c.depth - 1 }

pub data Refusal : Type 0 where
  remote_import : Refusal
  path_traversal : Refusal
  forbidden_extension : Text → Refusal
  forbidden_directory : Text → Refusal
  file_not_found : Refusal
  no_entry_point : Refusal
  file_too_large : ℕ → Refusal
  read_failed : Refusal
  blocked_pattern : ℕ → Refusal
  script_too_large : ℕ → Refusal
  depth_reached : Refusal

-- What `metrics.IncSecurityBlocked` is called with at a refusal.
abbrev pub violation : Refusal → List Text
violation remote_import = bytes "remote_import_attempt" ∷ []
violation path_traversal = bytes "path_traversal" ∷ []
violation (forbidden_extension e) = bytes "forbidden_extension" ∷ []
violation (forbidden_directory d) = bytes "forbidden_directory" ∷ []
violation (file_too_large n) = bytes "file_too_large" ∷ []
violation (blocked_pattern i) = bytes "blocked_pattern" ∷ []
violation (script_too_large n) = bytes "script_too_large" ∷ []
violation other = []

pub data Verdict (A : Type 0) : Type 0 where
  accepted : A → Verdict A
  refused : Refusal → Verdict A

abbrev pub any_prefix : Text → List Text → Bool
any_prefix s [] = false
any_prefix s (p ∷ ps) = has_prefix s p || any_prefix s ps

abbrev pub remote_schemes : List Text
remote_schemes =
    bytes "http://"
    ∷ bytes "https://"
    ∷ bytes "//"
    ∷ bytes "ftp://"
    ∷ bytes "data:"
    ∷ bytes "blob:"
    ∷ []

-- `strings.TrimPrefix` of one byte
abbrev pub trim_byte : ℕ → Text → Text
trim_byte c [] = []
trim_byte c (x ∷ s) = if x == c then s else x ∷ s

unfoldable pub clean_import : Text → Text
unfolding clean
clean_import raw = trim_byte b'\\' (trim_byte b'/' (clean raw))

-- `filepath.Rel` of the root and a path leads outside.
abbrev pub leads_out : Text → Bool
leads_out rel = has_prefix rel (bytes "..") || has_prefix rel (bytes "/")

abbrev pub first_part : List Text → Text
first_part [] = []
first_part (p ∷ ps) = p

-- the loop over `AllowedSubdirs`
unfoldable pub in_subdir : Text → List Text → Bool
unfolding split
in_subdir rel [] = false
in_subdir rel (sub ∷ subs) =
    text_eq (first_part (split b'/' rel)) sub
    || has_prefix rel (sub ++ bytes "/")
    || in_subdir rel subs

unfoldable pub is_allowed_directory : Text → Bool
unfolding in_subdir contains
is_allowed_directory rel = if contains rel (bytes "/") then in_subdir rel allowed_subdirs else true

unfoldable pub size_check : Text → FileInfo → Verdict Text
size_check path info =
    if ltb max_import_file_size info.size then refused (file_too_large info.size) else accepted path

-- The checks of a path before the disk is looked at: it is remote, its place, and its extension.
unfoldable pub path_checks : Bool → Text → Text → Verdict Text → Verdict Text
unfolding is_allowed_directory
path_checks is_remote rel extension located =
    if is_remote
    then refused remote_import
    else if leads_out rel
    then refused path_traversal
    else if not (is_allowed_extension extension)
    then refused (forbidden_extension extension)
    else if not (is_allowed_directory rel)
    then refused (forbidden_directory rel)
    else located

module _ (fs : FileSystem) where
  -- The file of a name, where it is one.
  abbrev pub plain_file : Text → Option FileInfo
  plain_file path = elim (fs.stat path) [
    | none ↦ none
    | some info ↦ if info.is_dir then none else some info
  ]

  -- the loop over `main.js` and `index.js`
  unfoldable pub entry_point : Text → List Text → Verdict Text
  unfolding size_check join_path
  entry_point full [] = refused no_entry_point
  entry_point full (c ∷ candidates) =
      let rest = entry_point full candidates in
      elim (plain_file (join_path full c)) [
        | none ↦ rest
        | some info ↦ size_check (join_path full c) info
      ]

  -- the end of `ValidateLocalPath`, from the first `os.Stat` on
  unfoldable pub locate : Text → Verdict Text
  unfolding size_check entry_point has_suffix
  locate full = elim (fs.stat full) [
    | none ↦
        if has_suffix full (bytes ".js")
        then refused file_not_found
        else elim (plain_file (full ++ bytes ".js")) [
          | none ↦ refused file_not_found
          | some info ↦ size_check (full ++ bytes ".js") info
        ]
    | some info ↦
        if info.is_dir
        then entry_point full (bytes "main.js" ∷ bytes "index.js" ∷ [])
        else size_check full info
  ]

  unfoldable pub validate_local_path : Text → Text → Verdict Text
  unfolding clean_import rel_path join_path path_checks locate ext to_lower trim_space
  validate_local_path root raw =
      let full = join_path root (clean_import raw) in
      path_checks (any_prefix (to_lower (trim_space raw)) remote_schemes) (rel_path root full)
        (to_lower (ext full)) (locate full)
