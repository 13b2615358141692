-- ===== src/Imports/Limits.antt =====
-- lsengine/internal/imports/import_processor.go: how many files a script block takes in, and how deep.
use mathlib.Core.List.{append-nil}
use lsengine_js.Base.{
  ℕ, take, leb, suc, ◌+◌, ◌≤◌, ◌≡◌, refl, sym, ◌∙◌, ap, subst, ◌⊎◌, inl, inr, true, false, Option,
  none, some, List, [], ◌∷◌, ◌++◌, arith, ltb, All, All-append, Bool-cases, Text, text_eq_refl,
  is_empty, split, trim_space, to_lower, if_true, if_false,
}
use lsengine_js.Security.{
  FileSystem, max_imports_per_file, max_import_depth, is_listed, increment_count, any_prefix,
  Verdict,
}
use lsengine_js.Security.Reading.{ImportProcessor, resolve_schemes}
use lsengine_js.Imports.{import_line, parse_import_specifiers}
use lsengine_js.Imports.Blocks.{
  Imported, ImportRun, resolve_import, Part, over_limit, remote, failed, loaded, BlockRun, add_part,
  part_of, import_one, process_line, process_lines, new_block, process_script_block,
}
use lsengine_js.Imports.Sources.{
  source_of, fetched, loaded_count, IsUnique, Resolved, resolve_import-Resolved, fetched-end,
  loaded_count-end, IsUnique-end, not_among, All-visited,
}

pub record IsLimited (b : BlockRun) : Type 0 where
  pub shallow : b.run.context.depth ≡ 0
  pub counted : loaded_count b.parts ≤ b.run.context.import_count
  pub few : loaded_count b.parts ≤ max_imports_per_file
  pub unique : IsUnique (fetched b.parts)
  pub known : All (λ s. is_listed s b.run.context.visited ≡ true) (fetched b.parts)

-- A part that takes in no file keeps the limits.
add_part-IsLimited :
    (b : BlockRun) (part : Part) (run : ImportRun)
    → IsLimited b
    → run.context.depth ≡ 0
    → run.context.import_count ≡ b.run.context.import_count + 1
    → (loaded_count (b.parts ++ (part ∷ [])) ≤ max_imports_per_file)
    → source_of part ≡ []
    → (run.context.visited ≡ b.run.context.visited)
      ⊎ ((t : Text) × (run.context.visited ≡ t ∷ b.run.context.visited))
    → IsLimited (add_part part run b)
add_part-IsLimited b part run h d c n none_new v = record {
  shallow = d;
  counted = omega (arith, loaded_count-end b.parts part, h.counted);
  few = n;
  unique = subst IsUnique (sym same) h.unique;
  known = subst (All (λ s. is_listed s run.context.visited ≡ true)) (sym same) (go v);
}
  where
    same : fetched (b.parts ++ (part ∷ [])) ≡ fetched b.parts
    same =
        fetched-end b.parts part
        ∙ ap (λ l. fetched b.parts ++ l) none_new
        ∙ append-nil (fetched b.parts)

    go :
        (run.context.visited ≡ b.run.context.visited)
          ⊎ ((t : Text) × (run.context.visited ≡ t ∷ b.run.context.visited))
        → All (λ s. is_listed s run.context.visited ≡ true) (fetched b.parts)
    go (inl e) = subst (λ l. All (λ s. is_listed s l ≡ true) (fetched b.parts)) (sym e) h.known
    go (inr (t, e)) =
        subst (λ l. All (λ s. is_listed s l ≡ true) (fetched b.parts)) (sym e)
          (All-visited t b.run.context.visited (fetched b.parts) h.known)

-- A part that takes in a file that was not visited keeps them too.
add_new-IsLimited :
    (b : BlockRun) (part : Part) (run : ImportRun) (source : Text)
    → IsLimited b
    → run.context.depth ≡ 0
    → run.context.import_count ≡ b.run.context.import_count + 1
    → (loaded_count (b.parts ++ (part ∷ [])) ≤ max_imports_per_file)
    → source_of part ≡ source ∷ []
    → is_listed source b.run.context.visited ≡ false
    → run.context.visited ≡ source ∷ b.run.context.visited
    → IsLimited (add_part part run b)
add_new-IsLimited b part run source h d c n new fresh v = record {
  shallow = d;
  counted = omega (arith, loaded_count-end b.parts part, h.counted);
  few = n;
  unique = subst IsUnique (sym same) (
      IsUnique-end (fetched b.parts) source h.unique
        (not_among source b.run.context.visited (fetched b.parts) h.known fresh));
  known = subst (All (λ s. is_listed s run.context.visited ≡ true)) (sym same) (
      subst (λ l. All (λ s. is_listed s l ≡ true) (fetched b.parts ++ (source ∷ []))) (sym v)
        (All-append _ _ _ (All-visited source b.run.context.visited (fetched b.parts) h.known)
          (ground (arith, text_eq_refl source), tt)));
}
  where
    same : fetched (b.parts ++ (part ∷ [])) ≡ fetched b.parts ++ (source ∷ [])
    same = fetched-end b.parts part ∙ ap (λ l. fetched b.parts ++ l) new

-- A part that is no file leaves the number of files.
loaded_count-note :
    (parts : List Part) (p : Part)
    → source_of p ≡ []
    → loaded_count (p ∷ []) ≡ 0
    → loaded_count (parts ++ (p ∷ [])) ≡ loaded_count parts
loaded_count-note [] p e k = k
loaded_count-note (over_limit n ∷ parts) p e k = loaded_count-note parts p e k
loaded_count-note (remote t ∷ parts) p e k = loaded_count-note parts p e k
loaded_count-note (failed t r ∷ parts) p e k = loaded_count-note parts p e k
loaded_count-note (loaded i ∷ parts) p e k = ap suc (loaded_count-note parts p e k)

Resolved-IsLimited :
    (b : BlockRun) (source : Text) (r : ImportRun × Verdict Imported)
    → IsLimited b
    → ltb max_imports_per_file (b.run.context.import_count + 1) ≡ false
    → Resolved source (increment_count b.run.context) r
    → IsLimited (add_part (part_of source r.1) r.0 b)
Resolved-IsLimited b source (run, v) h below (d, c, k) = go k
  where
    few : loaded_count (b.parts ++ (part_of source v ∷ [])) ≤ max_imports_per_file
    few = ground (arith, loaded_count-end b.parts (part_of source v), h.counted, below)

    go :
        ((source_of (part_of source v) ≡ [])
            × ((run.context.visited ≡ b.run.context.visited)
                ⊎ (run.context.visited ≡ source ∷ b.run.context.visited)))
          ⊎ ((source_of (part_of source v) ≡ source ∷ [])
              × (is_listed source b.run.context.visited ≡ false)
              × (run.context.visited ≡ source ∷ b.run.context.visited))
        → IsLimited (add_part (part_of source v) run b)
    go (inl (e, inl same)) = add_part-IsLimited b (part_of source v) run h d c few e (inl same)
    go (inl (e, inr one)) =
        add_part-IsLimited b (part_of source v) run h d c few e (inr (source, one))
    go (inr (e, fresh, one)) =
        add_new-IsLimited b (part_of source v) run source h d c few e fresh one

module _ (fs : FileSystem) where
  import_one-IsLimited :
      (names path : Text) (b : BlockRun) → IsLimited b → IsLimited (import_one fs names path b)
  unfolding import_one
  import_one-IsLimited names path b h =
      elim (Bool-cases (ltb max_imports_per_file counted.context.import_count)) [
        | inl e ↦
            subst IsLimited (sym (if_true _ _ _ e))
              (note (over_limit counted.context.import_count) counted.processor refl refl)
        | inr e ↦
            subst IsLimited (sym (if_false _ _ _ e))
              (elim (Bool-cases (any_prefix (to_lower source) resolve_schemes)) [
                | inl k ↦ subst IsLimited (sym (if_true _ _ _ k)) (note (remote source) _ refl refl)
                | inr k ↦ subst IsLimited (sym (if_false _ _ _ k)) (
                    Resolved-IsLimited b source
                      (resolve_import fs source (parse_import_specifiers names) counted) h e
                      (resolve_import-Resolved fs source (parse_import_specifiers names) counted
                        h.shallow))
              ])
      ]
    where
      source : Text
      source = trim_space path

      counted : ImportRun
      counted = record b.run { context = increment_count b.run.context }

      note :
          (part : Part) (p : ImportProcessor)
          → source_of part ≡ []
          → loaded_count (part ∷ []) ≡ 0
          → IsLimited (add_part part (record { processor = p; context = counted.context }) b)
      note part p e k =
          add_part-IsLimited b part (record { processor = p; context = counted.context }) h
            h.shallow refl (omega (arith, loaded_count-note b.parts part e k, h.few)) e (inl refl)

  process_line-IsLimited :
      (line : Text) (b : BlockRun) → IsLimited b → IsLimited (process_line fs line b)
  unfolding process_line
  process_line-IsLimited line b h = elim (Bool-cases (is_empty (trim_space line))) [
    | inl e ↦ subst IsLimited (sym (if_true _ _ _ e)) h
    | inr e ↦ subst IsLimited (sym (if_false _ _ _ e)) (go (import_line (trim_space line)))
  ]
    where
      go :
          (o : Option (Text × Text))
          → IsLimited (elim o [
            | some (names, path) ↦ import_one fs names path b
            | none ↦ record b { code_lines = b.code_lines ++ (line ∷ []) }
          ])
      go none = record {
        shallow = h.shallow;
        counted = h.counted;
        few = h.few;
        unique = h.unique;
        known = h.known;
      }
      go (some (names, path)) = import_one-IsLimited names path b h

  process_lines-IsLimited :
      (lines : List Text) (b : BlockRun) → IsLimited b → IsLimited (process_lines fs lines b)
  unfolding process_lines
  process_lines-IsLimited [] b h = h
  process_lines-IsLimited (line ∷ lines) b h =
      process_lines-IsLimited lines (process_line fs line b) (process_line-IsLimited line b h)

new_block-IsLimited : (p : ImportProcessor) → IsLimited (new_block p)
new_block-IsLimited p = record {
  shallow = refl;
  counted = omega arith;
  few = omega arith;
  unique = tt;
  known = tt;
}

-- Whatever a script block says, it takes in at most fifty files, and each source at most once. The depth is 0
-- at the end and after each number of its lines: wherever a line begins, the test of the limit of the depth
-- fails.
pub process_script_block-IsLimited :
    (fs : FileSystem) (content : Text) (p : ImportProcessor)
    → (loaded_count (process_script_block fs content p).parts ≤ max_imports_per_file)
      × IsUnique (fetched (process_script_block fs content p).parts)
      × ((process_script_block fs content p).run.context.depth ≡ 0)
      × ((n : ℕ)
          → ((process_lines fs (take n (split b'\n' content)) (new_block p)).run.context.depth ≡ 0)
            × (leb max_import_depth
                  (process_lines fs (take n (split b'\n' content)) (new_block p)).run.context.depth
                ≡ false))
unfolding process_script_block
process_script_block-IsLimited fs content p =
    (let h =
        process_lines-IsLimited fs (split b'\n' content) (new_block p) (new_block-IsLimited p) in
      (
        h.few,
        h.unique,
        h.shallow,
        (λ n.
            (let before =
                process_lines-IsLimited fs (take n (split b'\n' content)) (new_block p)
                  (new_block-IsLimited p) in
              (before.shallow, ground (arith, before.shallow)))),
      ))
