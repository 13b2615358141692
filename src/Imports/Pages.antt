-- ===== src/Imports/Pages.antt =====
-- lsengine/internal/imports/import_processor.go: what the tags of a page take in.
use lsengine_js.Base.{
  ℕ, ◌+◌, ◌≡◌, ◌≢◌, refl, sym, subst, true, false, Option, none, some, List, [], ◌∷◌, ◌++◌, ltb,
  All, Bool-cases, Text, bytes, has_prefix, to_lower, if_true, if_false, inl, inr,
}
use lsengine_js.Paths.{from_root}
use lsengine_js.Paths.Clean.{IsName}
use lsengine_js.Paths.Inside.{IsBelow}
use lsengine_js.Security.{
  FileSystem, max_imports_per_file, Refusal, Verdict, accepted, refused, any_prefix, clean_import,
}
use lsengine_js.Security.Content.{validate_script_content}
use lsengine_js.Security.Reading.{ImportProcessor, resolve_schemes, resolve_local_path, exists_at}
use lsengine_js.Security.Resolve.{resolve_local_path-IsBelow}
use lsengine_js.Security.Reads.{IsFaithful}
use lsengine_js.Imports.Contents.{AdmittedPart, process_script_block-Admitted}
use lsengine_js.Imports.Tags.{
  Segment, plain, matched, replace_matches, PageBlock, too_many, block, import_block,
  process_imports, Inclusion, dangerous, included, include_content, include_resolved, include_file,
  to_call_tag, process_to_call_tags, script_src_tag, process_script_src_ls,
}

-- The replacements of a page satisfy a predicate.
abbrev pub AllReplaced : {T : Type 0} → (T → Type 0) → List (Segment T) → Type 0
AllReplaced P [] = Unit
AllReplaced P (plain t ∷ page) = AllReplaced P page
AllReplaced P (matched r ∷ page) = P r × AllReplaced P page

module _ {G S T : Type 0} (P : T → Type 0) (I : S → Type 0) (f : G → S → S × T)
    (step : (g : G) (s : S) → I s → I (f g s).0 × P (f g s).1) where
  replace_matches-AllReplaced :
      (page : List (Segment G)) (s : S)
      → I s
      → I (replace_matches f page s).0 × AllReplaced P (replace_matches f page s).1
  unfolding replace_matches
  replace_matches-AllReplaced [] s h = (h, tt)
  replace_matches-AllReplaced (plain t ∷ page) s h = replace_matches-AllReplaced page s h
  replace_matches-AllReplaced (matched g ∷ page) s h =
      (let (next, new) = step g s h in
        let (last, rest) = replace_matches-AllReplaced page (f g s).0 next in (last, (new, rest)))

abbrev pub AdmittedBlock : FileSystem → List Text → PageBlock → Type 0
AdmittedBlock fs rs too_many = Unit
AdmittedBlock fs rs (block b) = All (AdmittedPart fs rs) b.parts

-- A content that takes the place of a tag has none of the policy's patterns; and it is that of a file below
-- the project, if the path does not begin with `..` when it is cleaned.
abbrev pub SafeInclusion : FileSystem → List Text → Text → Inclusion → Type 0
SafeInclusion fs rs path (included content) =
    (validate_script_content content ≡ none)
    × (has_prefix (clean_import path) (bytes "..") ≡ false
        → (full : Text) × IsBelow rs full × (fs.read_file full ≡ some content))
SafeInclusion fs rs path other = Unit

module _ (fs : FileSystem) (rs : List Text) (names : All IsName rs) where
  include_content-Safe :
      (kind path full : Text) (blocked : List Text)
      → (has_prefix (clean_import path) (bytes "..") ≡ false → IsBelow rs full)
      → (o : Option Text) → fs.read_file full ≡ o
      → SafeInclusion fs rs path (include_content kind o blocked).1
  unfolding include_content
  include_content-Safe kind path full blocked below none e = tt
  include_content-Safe kind path full blocked below (some content) e =
      go (validate_script_content content) refl
    where
      go :
          (o : Option Refusal)
          → validate_script_content content ≡ o
          → SafeInclusion fs rs path
              (elim o as (λ x. List Text × Inclusion) [
                | some r ↦ (blocked ++ (kind ∷ []), dangerous)
                | none ↦ (blocked, included content)
              ]).1
      go none k = (k, λ up. (full, below up, e))
      go (some r) k = tt

  include_file-Safe :
      (remote_kind content_kind path : Text) (blocked : List Text)
      → exists_at fs (from_root rs) ≡ true
      → SafeInclusion fs rs path
          (include_file fs (from_root rs) remote_kind content_kind path blocked).1
  unfolding include_file
  include_file-Safe remote_kind content_kind path blocked there =
      elim (Bool-cases (any_prefix (to_lower path) resolve_schemes)) [
        | inl e ↦
            subst {A = List Text × Inclusion} (λ r. SafeInclusion fs rs path r.1)
              (sym (if_true _ _ _ e)) tt
        | inr e ↦
            subst {A = List Text × Inclusion} (λ r. SafeInclusion fs rs path r.1)
              (sym (if_false _ _ _ e)) (go (resolve_local_path fs (from_root rs) path) refl)
      ]
    where
      go :
          (v : Verdict Text)
          → resolve_local_path fs (from_root rs) path ≡ v
          → SafeInclusion fs rs path (include_resolved fs content_kind v blocked).1
      go (refused r) e = tt
      go (accepted full) e =
          include_content-Safe content_kind path full blocked
            (λ up. (resolve_local_path-IsBelow fs rs names path full there up e).0)
            (fs.read_file full) refl

  -- A block keeps the cache faithful, and what it takes in is admitted.
  import_block-Admitted :
      fs.stat (from_root rs) ≢ none
      → (content : Text) (s : ℕ × ImportProcessor) → IsFaithful fs (from_root rs) s.1
      → IsFaithful fs (from_root rs) (import_block fs content s).0.1
        × AdmittedBlock fs rs (import_block fs content s).1
  unfolding import_block
  import_block-Admitted there content (counter, p) h =
      elim (Bool-cases (ltb max_imports_per_file (counter + 1))) [
        | inl e ↦
            subst Admitted (sym (if_true _ _ _ e))
              (record { rooted = h.rooted; cached = h.cached }, tt)
        | inr e ↦
            subst Admitted (sym (if_false _ _ _ e))
              (process_script_block-Admitted fs rs content p names there h)
      ]
    where
      Admitted : (ℕ × ImportProcessor) × PageBlock → Type 0
      Admitted r = IsFaithful fs (from_root rs) r.0.1 × AdmittedBlock fs rs r.1

-- Every file whose content takes the place of an import in a page, in whichever script block, is a file below
-- the project, in which no pattern of the policy occurs; and the processor's cache stays faithful to the
-- disk. The project's directory is a path from the root that exists, and the cache was faithful before.
pub process_imports-Admitted :
    (fs : FileSystem) (rs : List Text) (script_re : Text → List (Segment Text)) (html : Text)
    (p : ImportProcessor)
    → All IsName rs
    → fs.stat (from_root rs) ≢ none
    → IsFaithful fs (from_root rs) p
    → IsFaithful fs (from_root rs) (process_imports script_re fs html p).0.1
      × AllReplaced (AdmittedBlock fs rs) (process_imports script_re fs html p).1
unfolding process_imports
process_imports-Admitted fs rs script_re html p names there h =
    replace_matches-AllReplaced (AdmittedBlock fs rs) (λ s. IsFaithful fs (from_root rs) s.1)
      (import_block fs) (λ content s k. import_block-Admitted fs rs names there content s k)
      (script_re html) (0, p) h

-- A content that takes the place of a `to-call` tag or of an `ls` script tag has none of the policy's
-- patterns; and it is that of a file below the project, if the tag's path does not begin with `..` when it is
-- cleaned. The project's directory is a path from the root that exists.
pub process_tags-Safe :
    (fs : FileSystem) (rs : List Text) (call_re : Text → List (Segment Text))
    (src_re : Text → List (Segment (Text × Text))) (html : Text) (blocked : List Text)
    → All IsName rs
    → exists_at fs (from_root rs) ≡ true
    → AllReplaced
        (λ r. SafeInclusion fs rs r.0 r.1)
        (process_to_call_tags call_re fs html (from_root rs) blocked).1
      × AllReplaced
          (λ r. SafeInclusion fs rs r.0.0 r.1)
          (process_script_src_ls src_re fs html (from_root rs) blocked).1
unfolding process_to_call_tags to_call_tag process_script_src_ls script_src_tag
process_tags-Safe fs rs call_re src_re html blocked names there = (
  (replace_matches-AllReplaced (λ r. SafeInclusion fs rs r.0 r.1) (λ s. Unit {0})
      (to_call_tag fs (from_root rs))
      (λ path s k. (tt, include_file-Safe fs rs names _ _ path s there)) (call_re html) blocked
      tt).1,
  (replace_matches-AllReplaced (λ r. SafeInclusion fs rs r.0.0 r.1) (λ s. Unit {0})
      (script_src_tag fs (from_root rs))
      (λ g s k. (tt, include_file-Safe fs rs names _ _ g.0 s there)) (src_re html) blocked tt).1,
)
