-- ===== src/Imports/Contents.antt =====
-- lsengine/internal/imports/import_processor.go: the contents of the files that a script block takes in.
use lsengine_js.Base.{
  ◌≡◌, ◌≢◌, refl, sym, subst, Bool, true, false, Option, none, some, List, [], ◌∷◌, ◌++◌, ltb, leb,
  All, All-append, Bool-cases, Text, bytes, is_empty, split, trim_space, to_lower, if_true,
  if_false, inl, inr,
}
use lsengine_js.Paths.{from_root}
use lsengine_js.Paths.Clean.{IsName}
use lsengine_js.Paths.Inside.{IsBelow}
use lsengine_js.Security.{
  FileSystem, ImportContext, max_imports_per_file, max_import_depth, check_and_mark_visited,
  increment_count, increment_depth, decrement_depth, Refusal, violation, Verdict, accepted, refused,
  any_prefix,
}
use lsengine_js.Security.Content.{validate_script_content}
use lsengine_js.Security.Reading.{
  ImportProcessor, count_violation, read_local_file, resolve_schemes,
}
use lsengine_js.Security.Local.{IsFile}
use lsengine_js.Security.Reads.{IsFaithful, read_local_file-IsFaithful}
use lsengine_js.Imports.{import_line, parse_import_specifiers}
use lsengine_js.Imports.Blocks.{
  Imported, whole, named, ImportRun, wants_all, wrap, check_content, load_content, load_new,
  load_unless, resolve_import, Part, remote, loaded, BlockRun, add_part, part_of, import_one,
  process_line, process_lines, new_block, process_script_block,
}

-- A content that was read from a file below the project, and that the patterns of the policy do not occur in.
pub record IsAdmitted (fs : FileSystem) (rs : List Text) (content : Text) : Type 0 where
  pub harmless : validate_script_content content ≡ none
  pub read_from :
      (path : Text) × IsBelow rs path × IsFile fs path × (fs.read_file path ≡ some content)

-- What the part takes in is admitted.
abbrev pub AdmittedPart : FileSystem → List Text → Part → Type 0
AdmittedPart fs rs (loaded (whole source content)) = IsAdmitted fs rs content
AdmittedPart fs rs (loaded (named source specifiers content)) = IsAdmitted fs rs content
AdmittedPart fs rs other = Unit

module _ (fs : FileSystem) (rs : List Text) (names : All IsName rs)
    (there : fs.stat (from_root rs) ≢ none) where
  IsLoaded : Text → ImportRun × Verdict Imported → Type 0
  IsLoaded source (run, v) =
      IsFaithful fs (from_root rs) run.processor × AdmittedPart fs rs (part_of source v)

  Safe : BlockRun → Type 0
  Safe b = IsFaithful fs (from_root rs) b.run.processor × All (AdmittedPart fs rs) b.parts

  count_violation-IsFaithful :
      (kinds : List Text) (p : ImportProcessor)
      → IsFaithful fs (from_root rs) p
      → IsFaithful fs (from_root rs) (count_violation kinds p)
  count_violation-IsFaithful kinds p h = record { rooted = h.rooted; cached = h.cached }

  wrap-AdmittedPart :
      (source content : Text) (specifiers : List Text)
      → IsAdmitted fs rs content
      → AdmittedPart fs rs (loaded (wrap source specifiers content))
  unfolding wrap
  wrap-AdmittedPart source content specifiers h = elim (Bool-cases (wants_all specifiers)) [
    | inl e ↦ subst (λ i. AdmittedPart fs rs (loaded i)) (sym (if_true _ _ _ e)) h
    | inr e ↦ subst (λ i. AdmittedPart fs rs (loaded i)) (sym (if_false _ _ _ e)) h
  ]

  module _ (source : Text) (specifiers : List Text) where
    check_content-IsLoaded :
        (content : Text) (run : ImportRun)
        → IsFaithful fs (from_root rs) run.processor
        → ((path : Text) × IsBelow rs path × IsFile fs path × (fs.read_file path ≡ some content))
        → IsLoaded source (check_content source specifiers content run)
    unfolding IsLoaded check_content
    check_content-IsLoaded content run h from = go (validate_script_content content) refl
      where
        go :
            (o : Option Refusal)
            → validate_script_content content ≡ o
            → IsLoaded source (elim o [
              | some r ↦ (
                record run { processor = count_violation (violation r) run.processor },
                refused r,
              )
              | none ↦ (run, accepted (wrap source specifiers content))
            ])
        go none e = (
          h,
          wrap-AdmittedPart source content specifiers (record { harmless = e; read_from = from }),
        )
        go (some r) e = (count_violation-IsFaithful (violation r) run.processor h, tt)

    load_new-IsLoaded :
        (context : ImportContext) (p : ImportProcessor)
        → IsFaithful fs (from_root rs) p
        → IsLoaded source (load_new fs source specifiers context p)
    unfolding load_new IsLoaded
    load_new-IsLoaded context p h =
        go (read_local_file fs source p) (read_local_file-IsFaithful fs rs source p names there h)
      where
        go :
            (r : ImportProcessor × Verdict Text)
            → IsFaithful fs (from_root rs) r.0
              × ((content : Text)
                  → r.1 ≡ accepted content
                  → (path : Text) × IsBelow rs path
                    × IsFile fs path
                    × (fs.read_file path ≡ some content))
            → IsLoaded source
                (load_content source specifiers (decrement_depth (increment_depth context)) r)
        go (q, refused r) k = (k.0, tt)
        go (q, accepted content) k =
            check_content-IsLoaded content
              (record { processor = q; context = decrement_depth (increment_depth context) }) k.0
              (k.1 content refl)

    resolve_import-IsLoaded :
        (run : ImportRun)
        → IsFaithful fs (from_root rs) run.processor
        → IsLoaded source (resolve_import fs source specifiers run)
    unfolding resolve_import load_unless IsLoaded
    resolve_import-IsLoaded run h = elim (Bool-cases (leb max_import_depth run.context.depth)) [
      | inl e ↦ subst (IsLoaded source) (sym (if_true _ _ _ e)) (h, tt)
      | inr e ↦
          subst (IsLoaded source) (sym (if_false _ _ _ e))
            (go (check_and_mark_visited source run.context))
    ]
      where
        go :
            (marked : Bool × ImportContext)
            → IsLoaded source (load_unless fs source specifiers run.processor marked)
        go (true, context) = (h, tt)
        go (false, context) = load_new-IsLoaded context run.processor h

  add_part-Safe :
      (part : Part) (run : ImportRun) (b : BlockRun)
      → IsFaithful fs (from_root rs) run.processor
      → AdmittedPart fs rs part
      → Safe b
      → Safe (add_part part run b)
  unfolding Safe
  add_part-Safe part run b h k safe = (h, All-append _ b.parts (part ∷ []) safe.1 (k, tt))

  import_one-Safe : (ns path : Text) (b : BlockRun) → Safe b → Safe (import_one fs ns path b)
  unfolding import_one Safe IsLoaded
  import_one-Safe ns path b safe =
      elim (Bool-cases (ltb max_imports_per_file counted.context.import_count)) [
        | inl e ↦ subst Safe (sym (if_true _ _ _ e)) (add_part-Safe _ counted b safe.0 tt safe)
        | inr e ↦
            subst Safe (sym (if_false _ _ _ e))
              (elim (Bool-cases (any_prefix (to_lower source) resolve_schemes)) [
                | inl k ↦ subst Safe (sym (if_true _ _ _ k)) (
                    add_part-Safe (remote source) barred b
                      (count_violation-IsFaithful _ b.run.processor safe.0) tt safe)
                | inr k ↦
                    (let (h, part) =
                        resolve_import-IsLoaded source (parse_import_specifiers ns) counted
                          safe.0 in
                      subst Safe (sym (if_false _ _ _ k))
                        (add_part-Safe (part_of source result.1) result.0 b h part safe))
              ])
      ]
    where
      source : Text
      source = trim_space path

      counted : ImportRun
      counted = record b.run { context = increment_count b.run.context }

      barred : ImportRun
      barred = record counted {
        processor = count_violation (bytes "remote_import_attempt" ∷ []) counted.processor;
      }

      result : ImportRun × Verdict Imported
      result = resolve_import fs source (parse_import_specifiers ns) counted

  process_line-Safe : (line : Text) (b : BlockRun) → Safe b → Safe (process_line fs line b)
  unfolding process_line Safe
  process_line-Safe line b safe = elim (Bool-cases (is_empty (trim_space line))) [
    | inl e ↦ subst Safe (sym (if_true _ _ _ e)) safe
    | inr e ↦ subst Safe (sym (if_false _ _ _ e)) (go (import_line (trim_space line)))
  ]
    where
      go :
          (o : Option (Text × Text))
          → Safe (elim o [
            | some (ns, path) ↦ import_one fs ns path b
            | none ↦ record b { code_lines = b.code_lines ++ (line ∷ []) }
          ])
      go none = safe
      go (some (ns, path)) = import_one-Safe ns path b safe

  process_lines-Safe : (lines : List Text) (b : BlockRun) → Safe b → Safe (process_lines fs lines b)
  unfolding process_lines
  process_lines-Safe [] b safe = safe
  process_lines-Safe (line ∷ lines) b safe =
      process_lines-Safe lines (process_line fs line b) (process_line-Safe line b safe)

-- Every file whose content a script block takes in is a file below the project, in which no pattern of the
-- policy occurs, and the processor's cache stays faithful to the disk. The project's directory is a path from
-- the root that exists, and the cache was faithful before.
pub process_script_block-Admitted :
    (fs : FileSystem) (rs : List Text) (content : Text) (p : ImportProcessor)
    → All IsName rs
    → fs.stat (from_root rs) ≢ none
    → IsFaithful fs (from_root rs) p
    → IsFaithful fs (from_root rs) (process_script_block fs content p).run.processor
      × All (AdmittedPart fs rs) (process_script_block fs content p).parts
unfolding process_script_block Safe
process_script_block-Admitted fs rs content p names there h =
    process_lines-Safe fs rs names there (split b'\n' content) (new_block p) (h, tt)
