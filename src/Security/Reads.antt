-- ===== src/Security/Reads.antt =====
-- lsengine/internal/security/security.go, `ReadLocalFile`: what its cache holds.
use mathlib.Core.Option.{some-injective}
use lsengine_js.Base.{
  ◌≡◌, ◌≢◌, refl, sym, ◌∙◌, ap, subst, Option, none, some, List, arith, All, Bool-cases, inl, inr,
  Text, text_eq, text_eq_iff, lookup, lookup-insert,
}
use lsengine_js.Paths.{from_root}
use lsengine_js.Paths.Clean.{IsName}
use lsengine_js.Paths.Inside.{IsBelow}
use lsengine_js.Security.{FileSystem, Verdict, accepted, refused, validate_local_path}
use lsengine_js.Security.Local.{IsFile, validate_local_path-IsBelow}
use lsengine_js.Security.Reading.{ImportProcessor, keep_content, read_validated, read_local_file}

-- The content of a file that the name is accepted for.
abbrev pub IsContent : FileSystem → Text → Text → Text → Type 0
IsContent fs root raw content =
    (path : Text) × (validate_local_path fs root raw ≡ accepted path)
    × (fs.read_file path ≡ some content)

-- The cache holds what the disk does.
pub record IsFaithful (fs : FileSystem) (root : Text) (p : ImportProcessor) : Type 0 where
  pub rooted : p.project_root ≡ root
  pub cached :
      (raw content : Text)
      → lookup raw p.import_cache ≡ some content
      → IsContent fs root raw content

-- What a read leaves: a processor that is faithful, and the content if there is one.
abbrev Read : FileSystem → Text → Text → ImportProcessor × Verdict Text → Type 0
Read fs root raw (p, refused r) = IsFaithful fs root p
Read fs root raw (p, accepted content) = IsFaithful fs root p × IsContent fs root raw content

module _ (fs : FileSystem) (root raw : Text) where
  keep_content-Read :
      (p : ImportProcessor) (path : Text)
      → validate_local_path fs root raw ≡ accepted path
      → IsFaithful fs root p
      → (o : Option Text) → fs.read_file path ≡ o
      → Read fs root raw (keep_content raw o p)
  keep_content-Read p path v h none e = h
  keep_content-Read p path v h (some content) e = (
    record {
      rooted = h.rooted;
      cached = λ other found k. elim (Bool-cases (text_eq raw other)) [
        | inl same ↦
            (let here : raw ≡ other = (text_eq_iff raw other).0 same in
              let value : content ≡ found =
                some-injective _ _
                  (sym (lookup-insert raw other content p.import_cache ∙ rw same refl) ∙ k) in
              subst (λ x. IsContent fs root x found) here (path, v, e ∙ ap some value))
        | inr ne ↦
            h.cached other found
              (sym (lookup-insert raw other content p.import_cache ∙ rw ne refl) ∙ k)
      ];
    },
    (path, v, e),
  )

  read_validated-Read :
      (p : ImportProcessor)
      → IsFaithful fs root p
      → (v : Verdict Text) → validate_local_path fs root raw ≡ v
      → Read fs root raw (read_validated fs raw v p)
  read_validated-Read p h (refused r) e = record { rooted = h.rooted; cached = h.cached }
  read_validated-Read p h (accepted path) e = keep_content-Read p path e h (fs.read_file path) refl

  read_local_file-Read :
      (p : ImportProcessor) → IsFaithful fs root p → Read fs root raw (read_local_file fs raw p)
  unfolding read_local_file
  read_local_file-Read p h = go (lookup raw p.import_cache) refl
    where
      go :
          (o : Option Text)
          → lookup raw p.import_cache ≡ o
          → Read fs root raw (elim o [
            | some content ↦ (p, accepted content)
            | none ↦ read_validated fs raw (validate_local_path fs p.project_root raw) p
          ])
      go none e =
          read_validated-Read p h (validate_local_path fs p.project_root raw)
            (ap (λ r. validate_local_path fs r raw) (sym h.rooted))
      go (some content) e = (h, h.cached raw content e)

-- A read keeps the cache faithful, whether it succeeds or not; and the content that it returns, from the cache
-- or from the disk, is that of a file below the project. The project's directory is a path from the root that
-- exists.
pub read_local_file-IsFaithful :
    (fs : FileSystem) (rs : List Text) (raw : Text) (p : ImportProcessor)
    → All IsName rs
    → fs.stat (from_root rs) ≢ none
    → IsFaithful fs (from_root rs) p
    → IsFaithful fs (from_root rs) (read_local_file fs raw p).0
      × ((content : Text)
          → (read_local_file fs raw p).1 ≡ accepted content
          → (path : Text) × IsBelow rs path × IsFile fs path × (fs.read_file path ≡ some content))
read_local_file-IsFaithful fs rs raw p names there h =
    go (read_local_file fs raw p) (read_local_file-Read fs (from_root rs) raw p h)
  where
    go :
        (r : ImportProcessor × Verdict Text)
        → Read fs (from_root rs) raw r
        → IsFaithful fs (from_root rs) r.0
          × ((content : Text)
              → r.1 ≡ accepted content
              → (path : Text) × IsBelow rs path
                × IsFile fs path
                × (fs.read_file path ≡ some content))
    go (q, refused r) k = (k, λ content e. absurd (ground arith))
    go (q, accepted found) (k, (path, v, e)) = (
      k,
      λ content same.
          (let (below, file, rest) = validate_local_path-IsBelow fs rs raw path names there v in
            (path, below, file, e ∙ ap some (ground arith))),
    )
