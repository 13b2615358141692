-- ===== src/Imports/Sources.antt =====
-- lsengine/internal/imports/import_processor.go: which sources an import takes in.
use mathlib.Core.List.{append_assoc, append-nil}
use lsengine_js.Base.{
  true-false, ℕ, suc, ◌≤◌, ◌≡◌, refl, sym, ◌∙◌, ap, subst, ◌⊎◌, inl, inr, Bool, true, false, ◌||◌,
  Option, none, some, List, [], ◌∷◌, ◌++◌, arith, leb, All, Bool-cases, Text, text_eq, text_eq_iff,
  if_true, if_false,
}
use lsengine_js.Security.{
  FileSystem, ImportContext, max_import_depth, is_listed, check_and_mark_visited, increment_depth,
  decrement_depth, Refusal, violation, Verdict, accepted, refused,
}
use lsengine_js.Security.Content.{validate_script_content}
use lsengine_js.Security.Reading.{ImportProcessor, count_violation, read_local_file}
use lsengine_js.Imports.Blocks.{
  Imported, whole, named, ImportRun, wants_all, wrap, check_content, load_content, load_new,
  load_unless, resolve_import, Part, over_limit, remote, failed, loaded, part_of,
}

abbrev pub source_of : Part → List Text
source_of (loaded (whole source content)) = source ∷ []
source_of (loaded (named source specifiers content)) = source ∷ []
source_of other = []

-- The files that were taken in, in their order.
abbrev pub fetched : List Part → List Text
fetched [] = []
fetched (p ∷ parts) = source_of p ++ fetched parts

abbrev pub loaded_count : List Part → ℕ
loaded_count [] = 0
loaded_count (loaded i ∷ parts) = suc (loaded_count parts)
loaded_count (other ∷ parts) = loaded_count parts

-- No text occurs twice.
abbrev pub IsUnique : List Text → Type 0
IsUnique [] = Unit
IsUnique (s ∷ texts) = (is_listed s texts ≡ false) × IsUnique texts

-- What an import leaves of the context, and which file it takes in: none, or one that was not visited.
abbrev pub Resolved : Text → ImportContext → ImportRun × Verdict Imported → Type 0
Resolved source before (run, v) =
    (run.context.depth ≡ 0)
    × (run.context.import_count ≡ before.import_count)
    × (((source_of (part_of source v) ≡ [])
          × ((run.context.visited ≡ before.visited)
              ⊎ (run.context.visited ≡ source ∷ before.visited)))
        ⊎ ((source_of (part_of source v) ≡ source ∷ [])
            × (is_listed source before.visited ≡ false)
            × (run.context.visited ≡ source ∷ before.visited)))

wrap-source_of :
    (source content : Text) (specifiers : List Text)
    → source_of (loaded (wrap source specifiers content)) ≡ source ∷ []
unfolding wrap
wrap-source_of source content specifiers = elim (Bool-cases (wants_all specifiers)) [
  | inl e ↦ rw (wrap, e) refl
  | inr e ↦ rw (wrap, e) refl
]

marked_old :
    (source : Text) (c : ImportContext)
    → is_listed source c.visited ≡ true
    → check_and_mark_visited source c ≡ (true, c)
unfolding check_and_mark_visited
marked_old source c h = if_true _ _ _ h

marked_new :
    (source : Text) (c : ImportContext)
    → is_listed source c.visited ≡ false
    → check_and_mark_visited source c ≡ (false, record c { visited = source ∷ c.visited })
unfolding check_and_mark_visited
marked_new source c h = if_false _ _ _ h

module _ (fs : FileSystem) (source : Text) (specifiers : List Text) where
  check_content-Resolved :
      (before : ImportContext) (content : Text) (run : ImportRun)
      → run.context.depth ≡ 0
      → run.context.import_count ≡ before.import_count
      → is_listed source before.visited ≡ false
      → run.context.visited ≡ source ∷ before.visited
      → Resolved source before (check_content source specifiers content run)
  unfolding check_content
  check_content-Resolved before content run d c n v = go (validate_script_content content)
    where
      go :
          (o : Option Refusal)
          → Resolved source before (elim o [
            | some r ↦
                (record run { processor = count_violation (violation r) run.processor }, refused r)
            | none ↦ (run, accepted (wrap source specifiers content))
          ])
      go none = (d, c, inr (wrap-source_of source content specifiers, n, v))
      go (some r) = (d, c, inl (refl, inr v))

  load_content-Resolved :
      (before context : ImportContext) (r : ImportProcessor × Verdict Text)
      → context.depth ≡ 0
      → context.import_count ≡ before.import_count
      → is_listed source before.visited ≡ false
      → context.visited ≡ source ∷ before.visited
      → Resolved source before (load_content source specifiers context r)
  load_content-Resolved before context (p, refused r) d c n v = (d, c, inl (refl, inr v))
  load_content-Resolved before context (p, accepted content) d c n v =
      check_content-Resolved before content (record { processor = p; context = context }) d c n v

  load_unless-Resolved :
      (run : ImportRun)
      → run.context.depth ≡ 0
      → (marked : Bool × ImportContext) → check_and_mark_visited source run.context ≡ marked
      → Resolved source run.context (load_unless fs source specifiers run.processor marked)
  unfolding load_unless load_new
  load_unless-Resolved run d marked e = elim (Bool-cases (is_listed source run.context.visited)) [
    | inl seen ↦
        (let same = sym e ∙ marked_old source run.context seen in
          subst
            (λ x. Resolved source run.context (load_unless fs source specifiers run.processor x))
            (sym same) (d, refl, inl (refl, inl refl)))
    | inr fresh ↦
        (let same = sym e ∙ marked_new source run.context fresh in
          subst
            (λ x. Resolved source run.context (load_unless fs source specifiers run.processor x))
            (sym same)
            (load_content-Resolved run.context
              (decrement_depth
                (increment_depth (record run.context { visited = source ∷ run.context.visited })))
              (read_local_file fs source run.processor) (omega (arith, d)) refl fresh refl))
  ]

  pub resolve_import-Resolved :
      (run : ImportRun)
      → run.context.depth ≡ 0
      → Resolved source run.context (resolve_import fs source specifiers run)
  unfolding resolve_import
  resolve_import-Resolved run d =
      (let open_to : leb max_import_depth run.context.depth ≡ false = ground arith in
        subst (Resolved source run.context) (sym (if_false _ _ _ open_to))
          (load_unless-Resolved run d (check_and_mark_visited source run.context) refl))

pub fetched-end :
    (parts : List Part) (p : Part) → fetched (parts ++ (p ∷ [])) ≡ fetched parts ++ source_of p
fetched-end [] p = append-nil (source_of p)
fetched-end (q ∷ parts) p =
    ap (λ l. source_of q ++ l) (fetched-end parts p)
    ∙ sym (append_assoc (source_of q) (fetched parts) (source_of p))

pub loaded_count-end :
    (parts : List Part) (p : Part) → loaded_count (parts ++ (p ∷ [])) ≤ suc (loaded_count parts)
loaded_count-end [] (over_limit n) = omega arith
loaded_count-end [] (remote t) = omega arith
loaded_count-end [] (failed t r) = omega arith
loaded_count-end [] (loaded i) = omega arith
loaded_count-end (over_limit n ∷ parts) p = loaded_count-end parts p
loaded_count-end (remote t ∷ parts) p = loaded_count-end parts p
loaded_count-end (failed t r ∷ parts) p = loaded_count-end parts p
loaded_count-end (loaded i ∷ parts) p = omega (arith, loaded_count-end parts p)

is_listed-end :
    (s t : Text) (texts : List Text)
    → is_listed s (texts ++ (t ∷ [])) ≡ is_listed s texts || text_eq t s
is_listed-end s t [] = ground arith
is_listed-end s t (x ∷ texts) = ground (arith, is_listed-end s t texts)

pub IsUnique-end :
    (texts : List Text) (t : Text)
    → IsUnique texts
    → is_listed t texts ≡ false
    → IsUnique (texts ++ (t ∷ []))
IsUnique-end [] t u h = (refl, tt)
IsUnique-end (s ∷ texts) t u h = (
  ground (arith, is_listed-end s t texts, u.0, text_eq_iff t s, text_eq_iff s t),
  IsUnique-end texts t u.1 (ground arith),
)

-- A text that is listed nowhere in a list is not among texts that all are.
pub not_among :
    (t : Text) (visited texts : List Text)
    → All (λ s. is_listed s visited ≡ true) texts
    → is_listed t visited ≡ false
    → is_listed t texts ≡ false
not_among t visited [] k h = refl
not_among t visited (s ∷ texts) k h = elim (Bool-cases (text_eq s t)) [
  | inl e ↦
      absurd (true-false _ h (subst (λ x. is_listed x visited ≡ true) ((text_eq_iff s t).0 e) k.0))
  | inr e ↦ rw e (not_among t visited texts k.1 h)
]

pub All-visited :
    (t : Text) (visited texts : List Text)
    → All (λ s. is_listed s visited ≡ true) texts
    → All (λ s. is_listed s (t ∷ visited) ≡ true) texts
All-visited t visited [] k = tt
All-visited t visited (s ∷ texts) k = (ground arith, All-visited t visited texts k.1)
