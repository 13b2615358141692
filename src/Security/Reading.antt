-- ===== src/Security/Reading.antt =====
-- lsengine/internal/security/security.go: `ReadLocalFile` with its cache, and `ResolveLocalPath`.
use lsengine_js.Base.{
  Bool, true, false, not, ◌&&◌, Option, none, some, List, [], ◌∷◌, ◌++◌, if◌then◌else◌, Text, bytes,
  has_suffix, is_empty, to_lower, trim_space, lookup, insert,
}
use lsengine_js.Paths.{clean, join_path, rel_path, ext}
use lsengine_js.Security.{
  FileSystem, is_allowed_extension, violation, remote_import, path_traversal, forbidden_extension,
  file_not_found, read_failed, Verdict, accepted, refused, any_prefix, clean_import, leads_out,
  validate_local_path,
}

-- `blocked` are the calls of `metrics.IncSecurityBlocked`.
pub record ImportProcessor : Type 0 where
  pub project_root : Text
  pub import_cache : List (Text × Text)
  pub blocked : List Text

abbrev pub new_import_processor : Text → ImportProcessor
new_import_processor root = record { project_root = root; import_cache = []; blocked = [] }

abbrev pub count_violation : List Text → ImportProcessor → ImportProcessor
count_violation labels p = record p { blocked = p.blocked ++ labels }

abbrev pub keep_content : Text → Option Text → ImportProcessor → ImportProcessor × Verdict Text
keep_content raw none p = (p, refused read_failed)
keep_content raw (some content) p =
    (record p { import_cache = insert raw content p.import_cache }, accepted content)

abbrev pub read_validated :
    FileSystem → Text → Verdict Text → ImportProcessor → ImportProcessor × Verdict Text
read_validated fs raw (refused r) p = (count_violation (violation r) p, refused r)
read_validated fs raw (accepted full) p = keep_content raw (fs.read_file full) p

unfoldable pub read_local_file :
    FileSystem → Text → ImportProcessor → ImportProcessor × Verdict Text
unfolding validate_local_path
read_local_file fs raw p = elim (lookup raw p.import_cache) [
  | some content ↦ (p, accepted content)
  | none ↦ read_validated fs raw (validate_local_path fs p.project_root raw) p
]

abbrev pub resolve_schemes : List Text
resolve_schemes = bytes "http://" ∷ bytes "https://" ∷ bytes "//" ∷ []

-- `filepath.Join` of three elements, the first two of which are not empty
unfoldable pub join_three : Text → Text → Text → Text
unfolding clean
join_three a b c = clean (a ++ (b'/' ∷ (b ++ (b'/' ∷ c))))

abbrev pub exists_at : FileSystem → Text → Bool
exists_at fs path = elim (fs.stat path) [ none ↦ false | some info ↦ true ]

-- the loop over `js`, `public/js` and `modules`
unfoldable pub in_known_subdir : FileSystem → Text → Text → List Text → Verdict Text
unfolding join_three
in_known_subdir fs root c [] = refused file_not_found
in_known_subdir fs root c (sub ∷ subs) =
    let rest = in_known_subdir fs root c subs in
    if exists_at fs (join_three root sub c) then accepted (join_three root sub c) else rest

abbrev pub known_subdirs : List Text
known_subdirs = bytes "js" ∷ bytes "public/js" ∷ bytes "modules" ∷ []

-- the end of `ResolveLocalPath`, from the first `os.Stat` on
unfoldable pub find_local : FileSystem → Text → Text → Text → Verdict Text
unfolding in_known_subdir has_suffix
find_local fs root full c =
    if exists_at fs full
    then accepted full
    else if not (has_suffix full (bytes ".js")) && exists_at fs (full ++ bytes ".js")
    then accepted (full ++ bytes ".js")
    else in_known_subdir fs root c known_subdirs

unfoldable pub resolve_checks : Bool → Text → Text → Verdict Text → Verdict Text
resolve_checks is_remote rel extension found =
    if is_remote
    then refused remote_import
    else if leads_out rel
    then refused path_traversal
    else if not (is_empty extension) && not (is_allowed_extension extension)
    then refused (forbidden_extension extension)
    else found

-- No refusal of it is counted.
unfoldable pub resolve_local_path : FileSystem → Text → Text → Verdict Text
unfolding clean_import rel_path join_path resolve_checks find_local ext to_lower trim_space
resolve_local_path fs root path =
    let full = join_path root (clean_import path) in
    resolve_checks (any_prefix (to_lower (trim_space path)) resolve_schemes) (rel_path root full)
      (to_lower (ext full)) (find_local fs root full (clean_import path))
